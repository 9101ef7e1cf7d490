-- ===== src/Server/Loop/Delivery/Bytes.antt =====
-- The bytes of a line from a core, one by one: the loop over the received bytes in mainloop_select of
-- src/servapp.h.
use graphserv.Prelude.{
  ℕ, ◌≡◌, ◌≢◌, ap, ◌∙◌, ◌==◌, ◌||◌, if◌then◌else◌, false, Text, [], ◌∷◌, ◌++◌, some, All,
  append_assoc, arith,
}
use graphserv.Prelude.Assoc.{find}
use graphserv.Access.{access_admin}
use graphserv.External.{Env}
use graphserv.Outcome.{ok}
use graphserv.Core.{CoreInstance}
use graphserv.Core.Continuity.{linebuf-Continues}
use graphserv.Writer.Stream.{stream}
use graphserv.Session.{SessionContext, conn_tcp}
use graphserv.Server.{Graphserv, find_client, put_core_instance}
use graphserv.Server.Loop.{core_line, core_byte, core_bytes}
use graphserv.Server.Loop.Safety.{IsSafe, put_core-IsSafe}
use graphserv.Server.Loop.Cores.{own_id, put_core-found}
use graphserv.Server.Loop.Delivery.{Delivered, core_line-Delivered}

-- a byte that is neither a newline nor a carriage return
abbrev pub IsInner : ℕ → Type 0
IsInner c = (c ≢ 10) × (c ≢ 13)

-- What the client gets of a line behind the text that the instance has buffered already.
abbrev pub handed_of : CoreInstance → Text → Text
handed_of core line =
    if core.expecting_reply || core.expecting_dataset then core.linebuf ++ line else []

abbrev longer : ℕ → CoreInstance → CoreInstance
longer x core = record core { linebuf = core.linebuf ++ x ∷ [] }

module _ (env : Env) where
  longer-IsSafe :
      (id x : ℕ) (core : CoreInstance) (app : Graphserv)
      → find id app.core_instances ≡ some core
      → IsSafe env app
      → IsSafe env (put_core_instance (longer x core) app)
  longer-IsSafe id x core app f s =
      put_core-IsSafe env {level = access_admin} id core (longer x core) app f
        (linebuf-Continues env access_admin _ core) s

  inner_byte :
      (id x : ℕ) (rest : Text) (core : CoreInstance) (app : Graphserv)
      → find id app.core_instances ≡ some core
      → IsInner x
      → core_bytes env id (x ∷ rest) app
        ≡ core_bytes env id rest (put_core_instance (longer x core) app)
  unfolding core_bytes core_byte
  inner_byte id x rest core app f (newline, return) =
      let a : (x == 13) ≡ false = ground (arith, return) in
      let b : (x == 10) ≡ false = ground (arith, newline) in rw (core_bytes, f, a, b)

  last_byte :
      (id : ℕ) (core : CoreInstance) (app app' : Graphserv)
      → find id app.core_instances ≡ some core
      → core_line env (longer 10 core) (put_core_instance (longer 10 core) app) ≡ ok app'
      → core_bytes env id (10 ∷ []) app ≡ ok app'
  unfolding core_bytes core_byte
  last_byte id core app app' f e = rw (core_bytes, f, e)

  -- When a core has sent the bytes of a line and its newline, in a server for which the invariant holds,
  -- and the client whose command the core was sent last is still there, is a TCP client and has no line
  -- that waits, the handling of the bytes returns, and the client is written what the instance had
  -- buffered with the line behind it, and nothing else, if the core was expected to send a status line
  -- or a data set; it is written nothing if it was not.
  pub core_bytes-Delivered :
      (id : ℕ) (line : Text) (core : CoreInstance) (sc : SessionContext) (app : Graphserv)
      → IsSafe env app
      → find id app.core_instances ≡ some core
      → All IsInner line
      → find_client core.last_client_id app ≡ some sc
      → sc.connection_type ≡ conn_tcp
      → sc.line_queue ≡ []
      → (app' : Graphserv) × (core_bytes env id (line ++ 10 ∷ []) app ≡ ok app')
        × Delivered core.last_client_id sc (handed_of core (line ++ 10 ∷ [])) app'
  unfolding find_client put_core_instance
  core_bytes-Delivered id [] core sc app s f inner there tcp empty =
      let (app', e, d) =
        core_line-Delivered env (longer 10 core) sc (put_core_instance (longer 10 core) app)
          (longer-IsSafe id 10 core app f s) there tcp empty in
      (app', last_byte id core app app' f e, d)
  core_bytes-Delivered id (x ∷ line) core sc app s f (first, inner) there tcp empty =
      let app₁ = put_core_instance (longer x core) app in
      let (app', e, d) =
        core_bytes-Delivered id line (longer x core) sc app₁ (longer-IsSafe id x core app f s)
          (put_core-found env id core (longer x core) app f (own_id env id core app f s)) inner
          there tcp empty in
      let whole : handed_of (longer x core) (line ++ 10 ∷ [])
          ≡ handed_of core (x ∷ line ++ 10 ∷ []) =
        ap (λ (t : Text). if core.expecting_reply || core.expecting_dataset then t else [])
          (append_assoc core.linebuf (x ∷ []) (line ++ 10 ∷ [])) in
      (
        app',
        inner_byte id x (line ++ 10 ∷ []) core app f first ∙ e,
        record {
          session = d.session;
          found = d.found;
          received = d.received ∙ ap (◌++◌ (stream sc.writer)) whole;
        },
      )
