-- ===== src/Store/ResultStore/Tests.antt =====
-- Tests of the result store on a small store.
use ash.Common.{ℕ, ◌≡◌, refl, true, Option, none, some, List, [], ◌∷◌, ok, err, length, arith}
use ash.Common.Eq.{ℕ_keys, bytes_keys}
use ash.Common.Map.{get, insert, remove}
use ash.Store.ResultStore.{
  StoreLimits, memory, disk, Content, State, PendingContent, byte_quota, empty_state, new, release,
}
use ash.Store.ResultStore.Contents.{digest, equals, equals_lem}
use ash.Store.ResultStore.Retain.{retain_pending}
use ash.Store.ResultStore.Contract.{IsValid, Kept, retain_pending-atomic}
use ash.Store.ResultStore.Sample.{CaptureSample, new_sample, observe_all, observe_all-new_sample}
use ash.Store.ResultStore.Runs.{Run, stop, call, retains, Run-new_IsValid, release-retired}

abbrev same_bytes : List ℕ → List ℕ
same_bytes bytes = bytes

-- One spool file.
abbrev files : ℕ → Option (List ℕ)
files path = some (5 ∷ 6 ∷ [])

abbrev small : StoreLimits
small = record { max_bytes = 6; max_entries = 4 }

abbrev pending : List ℕ → PendingContent
pending bytes = record {
  content_id = none;
  content = some (record { length = length bytes; storage = memory bytes });
  reservation = none;
}

-- Two contents, the first one twice.
abbrev group : List PendingContent
group = pending (1 ∷ 2 ∷ []) ∷ pending (3 ∷ []) ∷ pending (1 ∷ 2 ∷ []) ∷ []

abbrev stored : State
stored = (retain_pending same_bytes files small 0 group empty_state).0

abbrev stored_run : Run same_bytes files small empty_state stored
stored_run = call empty_state stored stored (retains 0 group empty_state) (stop stored)

made : new (ok tt) small ≡ ok empty_state
unfolding new
made = refl

Run-new_IsValid_example : IsValid small stored
Run-new_IsValid_example =
    Run-new_IsValid same_bytes files small (ok tt) empty_state stored made (omega arith) stored_run

stored-aliases : (retain_pending same_bytes files small 0 group empty_state).1 ≡ ok (1 ∷ 2 ∷ 1 ∷ [])
unfolding retain_pending digest get insert equals
stored-aliases = refl

-- One content that is there and one that does not fit.
abbrev large : List PendingContent
large = pending (3 ∷ []) ∷ pending (7 ∷ 7 ∷ 7 ∷ 7 ∷ []) ∷ []

large_refused : (retain_pending same_bytes files small 0 large stored).1 ≡ err (byte_quota 3 4 6)
unfolding retain_pending digest get insert equals
large_refused = refl

retain_pending-atomic_example :
    Kept same_bytes files small large stored (retain_pending same_bytes files small 0 large stored)
retain_pending-atomic_example =
    retain_pending-atomic same_bytes files small 0 large stored (omega arith)
      Run-new_IsValid_example

abbrev released : State
released = (release 1 stored).0

abbrev again : State
again = (retain_pending same_bytes files small 0 group released).0

release_runs : release 1 stored ≡ (released, ok tt)
unfolding release retain_pending digest get insert equals remove
release_runs = refl

again-aliases : (retain_pending same_bytes files small 0 group released).1 ≡ ok (3 ∷ 2 ∷ 3 ∷ [])
unfolding release retain_pending digest get insert equals remove
again-aliases = refl

release-retired_example : get again.by_alias 1 ≡ none
release-retired_example =
    release-retired same_bytes files small 1 stored released again (omega arith)
      Run-new_IsValid_example release_runs
      (call released again again (retains 0 group released) (stop again))

abbrev in_memory : Content
in_memory = record { length = 2; storage = memory (5 ∷ 6 ∷ []) }

abbrev on_disk : Content
on_disk = record { length = 2; storage = disk 0 }

equals_lem_example : equals same_bytes files in_memory on_disk ≡ ok true
equals_lem_example =
    equals_lem same_bytes files in_memory on_disk (5 ∷ 6 ∷ []) (5 ∷ 6 ∷ [])
      (record { reads = refl; measured = refl }) (record { reads = refl; measured = refl })

abbrev chunks : List (List ℕ)
chunks = (1 ∷ 2 ∷ 3 ∷ []) ∷ [] ∷ (4 ∷ 5 ∷ 6 ∷ []) ∷ (7 ∷ []) ∷ []

abbrev sample : CaptureSample
sample = observe_all (new_sample 5) chunks

observe_all-new_sample_example :
    (sample.head ≡ 1 ∷ 2 ∷ []) × (sample.head_next ≡ some 3) × (sample.tail ≡ 5 ∷ 6 ∷ 7 ∷ [])
observe_all-new_sample_example = observe_all-new_sample 5 chunks
