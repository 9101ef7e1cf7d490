-- ===== src/Server/Forwarding/Output.antt =====
-- What lineFromCore of src/main.cpp changes when it hands a line to a client.
use graphserv.Prelude.{Text}
use graphserv.External.{Env}
use graphserv.Core.{Forward, as_status, as_dataset, unexpected}
use graphserv.Server.{Ctx}
use graphserv.Server.Forwarding.{deliver}
use graphserv.Server.Reply.Output.{
  forward_statusline-OnlyOutput, forward_dataset-OnlyOutput, OnlyOutput, OnlyOutput-refl,
}

module _ (env : Env) where
  pub deliver-OnlyOutput :
      (f : Forward) (line : Text) (c : Ctx) → OnlyOutput c (deliver env f line c)
  unfolding deliver
  deliver-OnlyOutput as_status line c = forward_statusline-OnlyOutput env line c
  deliver-OnlyOutput as_dataset line c = forward_dataset-OnlyOutput env line c
  deliver-OnlyOutput unexpected line c = OnlyOutput-refl c
