-- ===== src/Loop/Linux/Tests.antt =====
-- Runs of linux_loop.c over a main context that is a list of its sources.
use artik_sdk.Prelude.{
  ℕ, suc, ◌+◌, ◌<◌, ◌≡◌, refl, Bool, true, false, Option, none, some, List, [], ◌∷◌, arith,
}
use artik_sdk.Prelude.Int.{pos}
use artik_sdk.Error.{s_ok, code}
use artik_sdk.Loop.Linux.Context.{Glib, IsGlib, block_of, without_id, timeout}
use artik_sdk.Loop.Linux.{
  Main, int_of, os_add_timeout_callback, os_remove_timeout_callback, dispatched, run_call,
  add_timeout, find_block,
}
use artik_sdk.Loop.Linux.Ownership.{IsOwned, Reach, called, ran, here, next, Reach-IsOwned}
use artik_sdk.Loop.Linux.Removal.{os_remove_timeout_callback-add}

-- An id that is above all that are in use.
abbrev total : List (ℕ × ℕ) → ℕ
total [] = 0
total ((j, p) ∷ l) = j + total l

abbrev taken : ℕ → List (ℕ × ℕ) → Option ℕ → Bool × List ℕ × List (ℕ × ℕ)
taken id l none = (false, [], l)
taken id l (some p) = (true, p ∷ [], without_id id l)

abbrev context : Glib (List (ℕ × ℕ))
context = record {
  attached = λ l. l;
  attach = λ source p l. (suc (total l), (suc (total l), p) ∷ l);
  remove = λ id l. taken id l (block_of id l);
}

block_of-total : (id : ℕ) (l : List (ℕ × ℕ)) → total l < id → block_of id l ≡ none
block_of-total id [] h = refl
block_of-total id ((j, p) ∷ l) h = ground (arith, block_of-total id l)

context-IsGlib : IsGlib context
context-IsGlib = record {
  fresh = λ source p l. block_of-total (suc (total l)) l (omega arith);
  nonzero = λ source p l h. omega arith;
  attached = λ source p l. refl;
  missing = λ id l e. rw e refl;
  found = λ id p l e. (rw e refl, rw e refl);
  removed = λ id p l e. rw e refl;
}

abbrev idle_loop : Main (List (ℕ × ℕ))
idle_loop = record { blocks = []; calls = []; world = [] }

idle_loop-IsOwned : IsOwned context idle_loop
idle_loop-IsOwned = record { sources = refl; apart = tt }

-- A timeout of 100 ms with the function 5 and the block 40.
abbrev waiting : Main (List (ℕ × ℕ))
waiting = record {
  blocks = (record { addr = 40; func = 5; user_data = 6; id = 1 }) ∷ [];
  calls = [];
  world = (1, 40) ∷ [];
}

waiting_run :
    os_add_timeout_callback context true 100 5 6 (some 40) idle_loop ≡ (s_ok, some 1, waiting)
unfolding os_add_timeout_callback
waiting_run = refl

abbrev ended : Main (List (ℕ × ℕ))
ended = record { blocks = []; calls = (5, 6) ∷ []; world = [] }

ended_run : dispatched context (timeout 100) 1 40 (pos 0) waiting ≡ some ended
unfolding dispatched
ended_run = refl

unknown_block : (p : ℕ) → find_block p [] ≡ none
unfolding find_block
unknown_block p = refl

waiting-Reach :
    Reach context idle_loop (run_call context (add_timeout true 100 5 6 (some 40)) idle_loop)
waiting-Reach =
    next {t = idle_loop} here
      (called (add_timeout true 100 5 6 (some 40)) idle_loop (λ p h. unknown_block p))

ended-Reach : Reach context idle_loop ended
unfolding run_call os_add_timeout_callback
ended-Reach =
    next {t = waiting} waiting-Reach (ran (timeout 100) 1 40 (pos 0) waiting ended ended_run)

Reach-IsOwned_example : IsOwned context ended
Reach-IsOwned_example =
    Reach-IsOwned context {s = idle_loop} {t = ended} context-IsGlib idle_loop-IsOwned ended-Reach

os_remove_timeout_callback-add_example :
    ((os_remove_timeout_callback context (int_of 1) waiting).0 ≡ code s_ok)
    × ((os_remove_timeout_callback context (int_of 1) waiting).1.blocks ≡ [])
    × (context.attached (os_remove_timeout_callback context (int_of 1) waiting).1.world ≡ [])
os_remove_timeout_callback-add_example =
    os_remove_timeout_callback-add context context-IsGlib 100 5 6 40 idle_loop (λ h. omega arith) 1
      waiting waiting_run (omega arith)
