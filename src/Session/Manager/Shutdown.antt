-- ===== src/Session/Manager/Shutdown.antt =====
-- `destroy` and the ids that `load` creates, of src/session/manager.ts.
use whats_multi.Session.Manager.{Handle, SessionManager, values, has}
use whats_multi.Prelude.{ℕ, Bool, true, false, not, List, [], map, if◌then◌else◌, keep, Text}

-- What `destroy` called: the sessions' `destroy`, the backends' `close`, the lock provider's, in
-- this order; and which of the calls failed, which is only logged.
pub record Shutdown : Type 0 where
  pub sessions : List ℕ
  pub adapters : List ℕ
  pub lock : Bool
  pub failed_sessions : List ℕ
  pub failed_adapters : List ℕ

abbrev pub ref_of : Handle → ℕ
ref_of h = h.ref

abbrev pub nothing : Shutdown
nothing = record {
  sessions = [];
  adapters = [];
  lock = false;
  failed_sessions = [];
  failed_adapters = [];
}

module _ (has_lock : Bool) (session_fails adapter_fails : ℕ → Bool) where
  unfoldable pub destroy : SessionManager → Shutdown × SessionManager
  destroy m =
      let refs = map ref_of (values m.sessions) in
      let shutdown : Shutdown = record {
        sessions = refs;
        adapters = m.adapters;
        lock = has_lock;
        failed_sessions = keep session_fails refs;
        failed_adapters = keep adapter_fails m.adapters;
      } in
      if m.destroyed
      then (nothing, m)
      else (shutdown, record m { destroyed = true; sessions = []; adapters = [] })

-- The discovered ids that `load` hands to `create`.
unfoldable pub to_load : SessionManager → List Text → List Text
unfolding has
to_load m ids = keep (λ id. not (has m id)) ids
