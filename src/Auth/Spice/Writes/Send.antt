-- ===== src/Auth/Spice/Writes/Send.antt =====
-- packages/auth/src/spicedb.ts: `writeRelationships`, and what a call of a write function does.
use monok8s.Prelude.{List, [], Text, or_else}
use monok8s.Services.{Update, Result, ok, throw, Env, write_relationships}
use monok8s.Services.Exec.{Exec, pure, raise, perform, ◌>>=◌}
use monok8s.Auth.Spice.Writes.{Write, updates}

module _ (env : Env) where
  unfoldable pub write_updates : List Update → Exec Text
  write_updates us = do
    token ← perform (λ h. env.on_write h us) (write_relationships us)
    pure (or_else token [])

  send : Result (List Update) → Exec Text
  send (ok us) = write_updates us
  send (throw e) = raise e

  unfoldable pub run_write : Write → Exec Text
  unfolding send write_updates
  run_write w = send (updates w)
