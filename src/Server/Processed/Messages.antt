-- ===== src/Server/Processed/Messages.antt =====
-- What a message of a server command can change.
use graphserv.Prelude.{
  ◌≡◌, refl, inl, inr, if◌then◌else◌, Bool, true, false, Text, Option, none, some,
}
use graphserv.External.{Env}
use graphserv.Server.{Ctx, ServCmd}
use graphserv.Server.Instances.{Evolves}
use graphserv.Server.Reply.Output.{forward_statusline-OnlyOutput}
use graphserv.Server.Commands.{set_message, tell}
use graphserv.Server.Processed.{Processed, output_after, cores-Processed}

module _ (env : Env) where
  pub message-Processed :
      (cmd : ServCmd) (message : Text) (c : Ctx) → Processed env c (set_message cmd message c)
  unfolding set_message
  message-Processed cmd message c =
      cores-Processed env c.app.core_instances c.app.core_id_counter _ c.sc.core_id c
        (Evolves.keep refl)

  pub then_message :
      {c x : Ctx} (cmd : ServCmd) (message : Text)
      → Processed env c x
      → Processed env c (set_message cmd message x)
  unfolding set_message
  then_message cmd message p = record {
    same_sessions = p.same_sessions;
    same_client = p.same_client;
    same_type = p.same_type;
    same_queue = p.same_queue;
    level = elim p.level [
      | inl e ↦ inl e
      | inr g ↦ inr (record { credentials = g.credentials; accepts = g.accepts })
    ];
    cores = p.cores;
    auth = p.auth;
    same_now = p.same_now;
  }

  pub tell-Processed :
      (cmd : ServCmd) (message : Text) (c : Ctx) → Processed env c (tell env cmd message c)
  unfolding tell
  tell-Processed cmd message c =
      output_after env (message-Processed cmd message c)
        (forward_statusline-OnlyOutput env message _)

  pub if-Processed :
      (b : Bool) (c x y : Ctx)
      → Processed env c x
      → Processed env c y
      → Processed env c (if b then x else y)
  if-Processed true c x y hx hy = hx
  if-Processed false c x y hx hy = hy

  -- the same, where the branches know the test
  pub if_known-Processed :
      (b : Bool) (c x y : Ctx)
      → (b ≡ true → Processed env c x)
      → (b ≡ false → Processed env c y)
      → Processed env c (if b then x else y)
  if_known-Processed true c x y hx hy = hx refl
  if_known-Processed false c x y hx hy = hy refl

  -- the two ends of a search
  pub found-Processed :
      {A : Type 0} (o : Option A) (c x : Ctx) (f : A → Ctx)
      → Processed env c x
      → ((a : A) → o ≡ some a → Processed env c (f a))
      → Processed env c (elim o [ none ↦ x | some a ↦ f a ])
  found-Processed none c x f hx hf = hx
  found-Processed (some a) c x f hx hf = hf a refl
