-- ===== src/Loop/Linux/Context.antt =====
-- GLib's main context as linux_loop.c uses it: a source with a block of data behind it is attached
-- under an id, and is removed, when GLib hands the block to the destroy callback.
use artik_sdk.Prelude.{
  ℕ, ◌≡◌, ◌≢◌, Bool, true, false, Option, none, some, List, [], ◌∷◌, ◌==◌, if◌then◌else◌,
}
use artik_sdk.Prelude.Int.{ℤ}

-- `enum watch_io` as the set of its flags, and `GIOCondition`, which has the same.
pub record Condition : Type 0 where
  pub in_ : Bool
  pub out : Bool
  pub pri : Bool
  pub err : Bool
  pub hup : Bool
  pub nval : Bool

pub data Source : Type 0 where
  timeout periodic : ℕ → Source
  idle : Source
  watch : ℤ → Condition → Source
  signal : ℕ → Source

-- `attached` is what the context holds, the latest first: an id with its block. Attaching gives the
-- id; removing gives whether there is a source, and the blocks for the destroy callback.
pub record Glib (W : Type 0) : Type 0 where
  pub attached : W → List (ℕ × ℕ)
  pub attach : Source → ℕ → W → ℕ × W
  pub remove : ℕ → W → Bool × List ℕ × W

abbrev pub block_of : ℕ → List (ℕ × ℕ) → Option ℕ
block_of id [] = none
block_of id ((j, p) ∷ l) = if id == j then some p else block_of id l

abbrev pub without_id : ℕ → List (ℕ × ℕ) → List (ℕ × ℕ)
without_id id [] = []
without_id id ((j, p) ∷ l) = if id == j then l else (j, p) ∷ without_id id l

-- What GLib documents: an id is greater than 0 and in no use, and a source is removed by its id with
-- its own block.
pub record IsGlib {W : Type 0} (glib : Glib W) : Type 0 where
  pub fresh :
      (source : Source) (p : ℕ) (w : W)
      → block_of (glib.attach source p w).0 (glib.attached w) ≡ none
  pub nonzero : (source : Source) (p : ℕ) (w : W) → (glib.attach source p w).0 ≢ 0
  pub attached :
      (source : Source) (p : ℕ) (w : W)
      → glib.attached (glib.attach source p w).1 ≡ ((glib.attach source p w).0, p) ∷ glib.attached w
  pub missing :
      (id : ℕ) (w : W) → block_of id (glib.attached w) ≡ none → glib.remove id w ≡ (false, [], w)
  pub found :
      (id p : ℕ) (w : W)
      → block_of id (glib.attached w) ≡ some p
      → ((glib.remove id w).0 ≡ true) × ((glib.remove id w).1 ≡ p ∷ [])
  pub removed :
      (id p : ℕ) (w : W)
      → block_of id (glib.attached w) ≡ some p
      → glib.attached (glib.remove id w).2 ≡ without_id id (glib.attached w)
