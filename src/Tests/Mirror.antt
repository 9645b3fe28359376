-- ===== src/Tests/Mirror.antt =====
-- The blocks, the worker pool, the map of paths and the plan at concrete inputs.
use elasticdms_desktop.Prelude.{
  ℕ, ◌-◌, ◌^◌, ◌≡◌, inl, refl, true, false, some, List, [], ◌∷◌, All, arith,
}
use elasticdms_desktop.Text.{Text, codes, text_eq}
use elasticdms_desktop.Blocks.{BlockBuffer, with_chunk_size, complete}
use elasticdms_desktop.Blocks.Chunks.{Calls, record_call}
use elasticdms_desktop.Blocks.Whole.{deliver, concat, TakenOver, download-TakenOver}
use elasticdms_desktop.Namespace.{Container, EntryIdentifier}
use elasticdms_desktop.Namespace.Containers
use elasticdms_desktop.Namespace.EntryIds.{parent, container}
use elasticdms_desktop.Namespace.Order.{id_eq, compare_ids}
use elasticdms_desktop.Namespace.Entries.{Entry, EntryContent, is_folder}
use elasticdms_desktop.Change.{Change, new, removed, identifier}
use elasticdms_desktop.WorkerPool.{
  World, fresh, give, given_starts, started, takes, finishes, leave, ends, take_job, give_back,
  thread_gone, set_end, no_thread, Reached, reached_fresh, reached_step, reached_failure, Served,
  served_fresh, served_step,
}
use elasticdms_desktop.WorkerPool.Invariant.{IsSound, Reached-IsSound}
use elasticdms_desktop.WorkerPool.Drained.{Served-drained}
use elasticdms_desktop.PathMap.{PathMap, empty, put, find, set, location, path, knows, is_populated}
use elasticdms_desktop.PathMap.Depth.{IsClosed, empty-IsClosed, set-IsClosed, path_found, located}
use elasticdms_desktop.Filename.{stem_of, trim_end, is_whitespace}
use elasticdms_desktop.Checks.{check_name}
use elasticdms_desktop.Plan.{
  remove, staging_name, final_name, create, should, plan_change, plan_all, plan,
}
use elasticdms_desktop.Plan.Inspection.{check_entries, check_list}
use elasticdms_desktop.Plan.Stages.{IsOrdered, staged, finalised, staging_names, first_names}
use elasticdms_desktop.Plan.Sequence.{plan-IsOrdered, plan_paired}
use elasticdms_desktop.Plan.Listing.{FitsIn, AreDistinct, check_list_sound}

-- A download of five bytes in two pieces.
abbrev pieces : List (List ℕ)
pieces = (1 ∷ 2 ∷ []) ∷ (3 ∷ 4 ∷ 5 ∷ []) ∷ []

abbrev buffer : BlockBuffer
buffer = with_chunk_size 5 1

abbrev delivered : BlockBuffer × Calls
delivered = deliver buffer [] pieces

download-TakenOver_example :
    TakenOver 5 buffer.chunk (concat pieces) (complete record_call delivered.0 delivered.1)
download-TakenOver_example = download-TakenOver 5 1 pieces (omega arith) (omega arith) refl

-- The largest sizes are not rounded up: the product wraps.
with_chunk_size_wraps :
    ((with_chunk_size 5 (2 ^ 64 - 4096)).chunk ≡ 2 ^ 64 - 4096)
    × ((with_chunk_size 5 (2 ^ 64 - 4095)).chunk ≡ 0)
unfolding with_chunk_size
with_chunk_size_wraps = (refl, refl)

abbrev finished_buffer : BlockBuffer
finished_buffer = record {
  total = 5;
  received = 5;
  sent = 5;
  buffer = [];
  chunk = 4096;
  completed = true;
}

-- One job is taken in, a thread starts, runs it, and leaves after the end was set.
abbrev job_taken_in : World ℕ
job_taken_in = record {
  group = record { jobs = 7 ∷ []; threads = 1; busy = 0; end = false; accepted = 1 };
  starting = 1;
  waiting = 0;
  running = 0;
  given = 7 ∷ [];
  begun = [];
  finished = 0;
}

abbrev at_work : World ℕ
at_work = record {
  group = record { jobs = []; threads = 1; busy = 1; end = false; accepted = 1 };
  starting = 0;
  waiting = 0;
  running = 1;
  given = 7 ∷ [];
  begun = 7 ∷ [];
  finished = 0;
}

abbrev gone : World ℕ
gone = record {
  group = record { jobs = []; threads = 0; busy = 0; end = true; accepted = 1 };
  starting = 0;
  waiting = 0;
  running = 0;
  given = 7 ∷ [];
  begun = 7 ∷ [];
  finished = 1;
}

job_taken_in-Served : Served 2 job_taken_in
unfolding fresh give
job_taken_in-Served = served_step served_fresh (given_starts fresh 7 job_taken_in.group refl)

at_work-Served : Served 2 at_work
unfolding take_job
at_work-Served = served_step (served_step job_taken_in-Served (started job_taken_in 0 refl)) (
    takes
      (record {
        group = job_taken_in.group;
        starting = 0;
        waiting = 1;
        running = 0;
        given = 7 ∷ [];
        begun = [];
        finished = 0;
      })
      7 [] 0 refl refl)

gone-Served : Served 2 gone
unfolding give_back set_end thread_gone
gone-Served =
    served_step
      (served_step (served_step at_work-Served (finishes at_work 0 refl)) (
        ends
          (record {
            group = give_back at_work.group;
            starting = 0;
            waiting = 1;
            running = 0;
            given = 7 ∷ [];
            begun = 7 ∷ [];
            finished = 1;
          })
          true))
      (leave
        (record {
          group = set_end true (give_back at_work.group);
          starting = 0;
          waiting = 1;
          running = 0;
          given = 7 ∷ [];
          begun = 7 ∷ [];
          finished = 1;
        })
        0 refl refl)

Served-drained_example : (gone.begun ≡ gone.given) × (gone.finished ≡ gone.group.accepted)
Served-drained_example = Served-drained 2 (omega arith) gone-Served refl

-- The system gives no thread, and the end is set: the job stays in the queue, with no thread.
abbrev stranded : World ℕ
stranded = record {
  group = record { jobs = 7 ∷ []; threads = 0; busy = 0; end = true; accepted = 1 };
  starting = 0;
  waiting = 0;
  running = 0;
  given = 7 ∷ [];
  begun = [];
  finished = 0;
}

stranded-Reached : Reached 2 stranded
unfolding fresh give thread_gone set_end
stranded-Reached =
    reached_step
      (reached_failure (reached_step reached_fresh (given_starts fresh 7 job_taken_in.group refl))
        (no_thread job_taken_in 0 refl))
      (ends
        (record {
          group = thread_gone job_taken_in.group;
          starting = 0;
          waiting = 0;
          running = 0;
          given = 7 ∷ [];
          begun = [];
          finished = 0;
        })
        true)

Reached-IsSound_example : IsSound 2 stranded
Reached-IsSound_example = Reached-IsSound 2 stranded-Reached

-- The containers above archive 41, and the archive.
abbrev archives_id : EntryIdentifier
archives_id = EntryIdentifier.container Container.archives

abbrev archive_id : EntryIdentifier
archive_id = EntryIdentifier.container (Container.archive 41)

abbrev blank : PathMap
blank = record { locations = []; populated = [] }

abbrev one : PathMap
one = (set archives_id (codes "Archive") true (empty blank)).0

set-IsClosed_example : IsClosed one
unfolding parent Containers.parent
set-IsClosed_example =
    set-IsClosed archives_id (codes "Archive") true (empty blank) Container.root refl (inl refl)
      (empty-IsClosed blank)

one-IsClosed : IsClosed one
unfolding parent Containers.parent
one-IsClosed =
    set-IsClosed archives_id (codes "Archive") true (empty blank) Container.root refl (inl refl)
      (empty-IsClosed blank)

path_found_example : (text : Text) × (path one archives_id ≡ some text)
unfolding location find set put parent Containers.parent empty id_eq compare_ids
path_found_example =
    path_found one archives_id (located Container.root (codes "Archive") true) one-IsClosed refl

abbrev archive : Entry
archive = record { identifier = archive_id; name = codes "Akten"; content = EntryContent.folder }

abbrev staging : ℕ → Text
staging n = n ∷ []

-- A map that knows archive 41 under another name and archive 43, and the listing of all archives.
abbrev listed : PathMap
listed = record {
  locations =
      (archive_id, located Container.archives (codes "Alt") true)
      ∷ (
        EntryIdentifier.container (Container.archive 43),
        located Container.archives (codes "Ablage") true,
      )
      ∷ [];
  populated = Container.archives ∷ [];
}

abbrev unlisted : Entry
unlisted = record {
  identifier = EntryIdentifier.container (Container.archive 43);
  name = codes "Ablage";
  content = EntryContent.folder;
}

abbrev added : Entry
added = record {
  identifier = EntryIdentifier.container (Container.archive 42);
  name = codes "Alt";
  content = EntryContent.folder;
}

-- Archive 42 takes the name that archive 41 gives up.
abbrev difference : List Change
difference = new added ∷ new archive ∷ removed unlisted ∷ []

plan-difference :
    plan staging listed difference
    ≡ remove unlisted.identifier
      ∷ staging_name archive_id (0 ∷ [])
      ∷ final_name archive_id (codes "Akten")
      ∷ create added
      ∷ []
unfolding plan plan_all plan_change should location find knows is_populated parent Containers.parent
    id_eq compare_ids text_eq is_folder identifier
plan-difference = refl

plan-IsOrdered_example : IsOrdered (plan staging listed difference)
plan-IsOrdered_example = plan-IsOrdered staging listed difference

plan_paired_example :
    (staged (plan staging listed difference) ≡ finalised (plan staging listed difference))
    × ((n : ℕ) × (staging_names (plan staging listed difference) ≡ first_names staging n))
plan_paired_example = plan_paired staging listed difference

abbrev same : Text → Text
same t = t

check_list_sound_example :
    All (FitsIn Container.archives) (archive ∷ []) × AreDistinct same (archive ∷ [])
unfolding check_list check_entries check_name stem_of trim_end is_whitespace parent container
    Containers.parent id_eq compare_ids is_folder
check_list_sound_example = check_list_sound same Container.archives (archive ∷ []) refl
