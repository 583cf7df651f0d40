-- ===== src/Direct/Entries.antt =====
-- internal/directruntime/runtime.go: the map of the tracked tasks.
use piper.Direct.{
  TrackedTask, cancel_entries, cancel_entry, find_tracked, set_tracked, delete_tracked,
}
use piper.Prelude.{
  ◌&&◌, String, Bool, true, false, Option, none, some, List, [], ◌∷◌, str_eq, ◌≡◌, refl, arith,
  eq_iff,
}

pub find-set_tracked :
    (k j : String) (t : TrackedTask) (active : List (String × TrackedTask))
    → str_eq j k ≡ false
    → find_tracked k (set_tracked j t active) ≡ find_tracked k active
unfolding find_tracked set_tracked
find-set_tracked k j t [] h = ground (arith, h)
find-set_tracked k j t ((i, u) ∷ active) h =
    ground (arith, h, find-set_tracked k j t active h, eq_iff i j, eq_iff i k, eq_iff j k)

pub find-delete_tracked :
    (k j : String) (active : List (String × TrackedTask))
    → str_eq j k ≡ false
    → find_tracked k (delete_tracked j active) ≡ find_tracked k active
unfolding find_tracked delete_tracked
find-delete_tracked k j [] h = refl
find-delete_tracked k j ((i, u) ∷ active) h =
    ground (arith, h, find-delete_tracked k j active h, eq_iff i j, eq_iff i k, eq_iff j k)

-- The task of the key is marked.
abbrev pub is_marked : Option TrackedTask → Bool
is_marked none = false
is_marked (some t) = t.canceled

-- The key's task is starting for the run.
abbrev pub starts_for : String → Option TrackedTask → Bool
starts_for run_id none = false
starts_for run_id (some t) = t.starting && str_eq t.run_id run_id

pub cancel_entries-is_marked :
    (k run_id : String) (active : List (String × TrackedTask))
    → is_marked (find_tracked k active) ≡ true
    → is_marked (find_tracked k (cancel_entries run_id active)) ≡ true
unfolding find_tracked cancel_entries cancel_entry
cancel_entries-is_marked k run_id [] h = h
cancel_entries-is_marked k run_id ((i, t) ∷ active) h =
    ground (arith, h, cancel_entries-is_marked k run_id active)

pub cancel_entries-starts_for :
    (k run_id : String) (active : List (String × TrackedTask))
    → starts_for run_id (find_tracked k active) ≡ true
    → is_marked (find_tracked k (cancel_entries run_id active)) ≡ true
unfolding find_tracked cancel_entries cancel_entry
cancel_entries-starts_for k run_id [] h = cc h
cancel_entries-starts_for k run_id ((i, t) ∷ active) h =
    ground (arith, h, cancel_entries-starts_for k run_id active)
