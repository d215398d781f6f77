-- ===== src/Plugin/Lifecycle.antt =====
-- src/plugin/dispatch-lifecycle.ts: the observation of dispatches that fail before the end of a turn. The
-- maps of the closure are one record, and each method is a function on it. A result is observed in two
-- steps: the method mounts it on the newest epoch, and its callback records how it settled.
pub mod Methods
pub mod Sizes
pub mod Bounds
pub mod Entries
pub mod Epochs
pub mod Settled
pub mod Candidates
pub mod References
use dsh_workflow_plugin.Prelude.{
  ℕ, suc, ◌-◌, String, Text, trim, is_empty, Bool, true, false, ◌&&◌, ◌||◌, not, ◌==◌, nat_eq, ltb,
  leb, if◌then◌else◌, opt_eq, is_some, is_none, Option, none, some, opt_map, opt_bind, List, [],
  ◌∷◌, length, filter_by, Assoc, lookup, put, remove,
}

abbrev pub buffer_max : ℕ
buffer_max = 64

abbrev buffer_ttl_ms : ℕ
buffer_ttl_ms = 60000

abbrev pub pending_max : ℕ
pending_max = 512

pub record ActivationEndInfo : Type 0 where
  pub run_id : String
  pub stop_reason : String
  pub provider : Option Text

pub data DispatchKind : Type 0 where
  actor judge : DispatchKind

-- What the engine tells of a dispatch that it has published.
pub record DispatchPublication : Type 0 where
  pub workspace_key : String
  pub run_id : String
  pub execution_id : String
  pub node_token : String
  pub dispatch_id : String
  pub kind : DispatchKind
  pub role_key : String
  pub route : Option Text
  pub session_id : String
  pub message_id : String
  pub claim_id : Option String
  pub input_version : Option ℕ

pub data Outcome : Type 0 where
  unknown completed failed : Outcome

pub record DispatchCandidate : Type 0 where
  pub fact : DispatchPublication
  pub epoch_run_id : Option String
  pub end_info : ActivationEndInfo
  pub outcome : Outcome
  pub failure_code : Option Text
  pub failure_summary : Option Text

pub record DispatchObservationRef : Type 0 where
  pub session_id : String
  pub registration : ℕ

pub record BufferedEnd : Type 0 where
  pub end_info : ActivationEndInfo
  pub at : ℕ

pub record Registration : Type 0 where
  pub registration : ℕ
  pub fact : DispatchPublication
  pub epoch_run_id : Option String
  pub end_info : Option ActivationEndInfo

-- `outcome` is never `unknown` here.
pub record ResultObservation : Type 0 where
  pub epoch : Option String
  pub outcome : Outcome
  pub failure_code : Option Text
  pub failure_summary : Option Text

-- The variables of the closure. Each map has its oldest key first.
pub record Lifecycle : Type 0 where
  pub epochs : Assoc String
  pub pending : Assoc Registration
  pub buffered : Assoc BufferedEnd
  pub outcomes : Assoc ResultObservation
  pub disposed : Bool
  pub registrations : ℕ

-- `makeDispatchLifecycle()`.
abbrev pub make_dispatch_lifecycle : Lifecycle
make_dispatch_lifecycle = record {
  epochs = [];
  pending = [];
  buffered = [];
  outcomes = [];
  disposed = false;
  registrations = 0;
}

-- Room for `keep`: the oldest entry goes where the map is full and does not have it.
unfoldable pub drop_oldest {ℓ} : {V : Type ℓ} → Assoc V → (max : ℕ) → (keep : String) → Assoc V
drop_oldest [] max keep = []
drop_oldest ((k, v) ∷ m) max keep =
    if ltb (suc (length m)) max || is_some (lookup keep ((k, v) ∷ m)) then (k, v) ∷ m else m

-- The loop that deletes the oldest end while there are more than the buffer holds.
unfoldable pub drop_excess {ℓ} : {V : Type ℓ} → Assoc V → Assoc V
drop_excess [] = []
drop_excess ((k, v) ∷ m) =
    let rest = drop_excess m in if ltb buffer_max (suc (length m)) then rest else (k, v) ∷ m

abbrev pub is_fresh : ℕ → String × BufferedEnd → Bool
is_fresh now (key, value) = not (ltb buffer_ttl_ms (now - value.at))

unfoldable pub sweep_buffer : ℕ → Assoc BufferedEnd → Assoc BufferedEnd
unfolding drop_excess
sweep_buffer now m = drop_excess (filter_by (is_fresh now) m)

pub buffer : String → ActivationEndInfo → ℕ → Lifecycle → Lifecycle
unfolding sweep_buffer
buffer child_id end_info now l = record l {
  buffered =
      drop_excess
        (put child_id (record { end_info = end_info; at = now }) (sweep_buffer now l.buffered));
}
