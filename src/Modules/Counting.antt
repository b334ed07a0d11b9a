-- ===== src/Modules/Counting.antt =====
-- linux_module.c: requests and releases in any order, and what the process holds after them.
use artik_sdk.Prelude.{
  ℕ, ◌+◌, ◌<◌, ◌≡◌, sym, ◌∙◌, true, Option, none, some, List, inl, inr, subst, arith, ◌==◌,
  if◌then◌else◌, Option-cases,
}
use artik_sdk.Prelude.Text.{Bytes}
use artik_sdk.Error.{ArtikError, is_ok}
use artik_sdk.ArtikList.{ArtikList, Node}
use artik_sdk.ArtikList.Lookup.{add_lem, add-none}
use artik_sdk.ArtikList.Deletion.{without, delete_check-found}
use artik_sdk.Prelude.Counting.{remove_one}
use artik_sdk.Modules.{
  ModuleInfo, ApiModule, Loaded, System, blank, sizeof_artik_module_node, find_module, find_name,
  find_ops, same_ops, os_request_api_module, os_release_api_module, path_string, module_string,
}
use artik_sdk.Prelude.Counting.{count-remove_one}
use artik_sdk.Modules.Entries.{
  Entry, sharers, sharers-In, sharers-zero, loads, In, less, In-less, is_of, IsFound,
  find_ops-IsFound, find_ops-none,
}
use artik_sdk.Modules.Counts.{loads-less}
use artik_sdk.Modules.Sharing.{IsShared, IsHonest, Alike, found-IsShared, absent-IsShared}

-- A request that succeeds.
request-IsShared :
    (head : ℕ → ℕ) (sys : System) (table : List ApiModule) (name : Bytes) (s s' : Loaded) (d : ℕ)
    → IsShared head s
    → IsHonest head sys name s d
    → os_request_api_module sys (some table) (some name) s ≡ some (some d, s')
    → IsShared head s'
unfolding os_request_api_module
request-IsShared head sys table name s s' d t o h = elim (Option-cases (find_module name table)) [
  | inl e ↦ absurd (ground (arith, h))
  | inr (row, e) ↦ elim (Option-cases sys.node) [
    | inl n ↦ absurd (ground (arith, h, add-none s.requested_node 0 sizeof_artik_module_node blank))
    | inr (p, n) ↦ elim (Option-cases (find_name name s.requested_node)) [
      | inl f ↦ absurd (ground (arith, h))
      | inr (none, f) ↦
          let a = add_lem s.requested_node 0 sizeof_artik_module_node p blank (omega arith) in
          elim (Option-cases (sys.dlopen (path_string row.object sys.version))) [
            | inl g ↦ absurd (ground (arith, h, a))
            | inr (l, g) ↦ elim (Option-cases (sys.dlsym l (module_string name))) [
              | inl m ↦ absurd (ground (arith, h, a))
              | inr (x, m) ↦ elim (Option-cases sys.name) [
                | inl c ↦ absurd (ground (arith, h, a))
                | inr (q, c) ↦
                    absent-IsShared head sys table row name s s' d t o e h p l x q f n g m c
              ]
            ]
          ]
      | inr (some k, f) ↦ found-IsShared head sys table row name s s' d t o e h k p f n
    ]
  ]
]

module _ (head : ℕ → ℕ) (ops : ℕ) (s : Loaded) (n : Node ModuleInfo) (t : IsShared head s)
    (r : IsFound head ops s.requested_node t.entries n) where
  -- The list after the removal.
  abbrev rest_of : ArtikList ModuleInfo
  rest_of = without (same_ops head ops) s.requested_node

  abbrev entries_of : List Entry
  entries_of = less (is_of head ops) t.entries

  is_of_name : (a : Entry) → In a t.entries → is_of head ops a ≡ (r.entry.name == a.name)
  is_of_name a i = ground (arith, r.hit, t.alike r.entry a r.within i)

  fewer :
      (h : ℕ)
      → loads h t.entries
        ≡ (if sharers r.entry.name entries_of == 0
            then (if h == r.entry.handle then 1 else 0)
            else 0)
          + loads h entries_of
  fewer h =
      loads-less (is_of head ops) r.entry h t.entries is_of_name
        (λ a i. (t.alike r.entry a r.within i).1) r.within

  left-Alike : (a b : Entry) → In a entries_of → In b entries_of → Alike head a b
  left-Alike a b u v =
      t.alike a b (In-less (is_of head ops) a t.entries u) (In-less (is_of head ops) b t.entries v)

  -- Another request of the module is there.
  kept-IsShared :
      (x : Node ModuleInfo)
      → find_ops head ops rest_of ≡ some (some x)
      → IsShared head (record s { requested_node = rest_of })
  kept-IsShared x f =
      let y : IsFound head ops rest_of entries_of x =
        find_ops-IsFound head ops rest_of entries_of x r.rest f in
      let named : (r.entry.name == y.entry.name) ≡ true =
        sym (is_of_name y.entry (In-less (is_of head ops) y.entry t.entries y.within)) ∙ y.hit in
      let more : 0 < sharers r.entry.name entries_of =
        ground (arith, named, sharers-In y.entry entries_of y.within) in
      record {
        entries = entries_of;
        holds = r.rest;
        alike = left-Alike;
        opened = λ h. ground (arith, t.opened h, fewer h, more);
        names = λ p. ground (arith, t.names p, more, r.counts (λ (a : Entry). p == a.name));
      }

  -- The last one.
  last-IsShared :
      find_ops head ops rest_of ≡ some none
      → IsShared head (record {
        requested_node = rest_of;
        names = remove_one r.entry.name s.names;
        opened = remove_one r.entry.handle s.opened;
      })
  last-IsShared f =
      let none_left : sharers r.entry.name entries_of ≡ 0 =
        sharers-zero r.entry.name entries_of λ a i.
          sym (is_of_name a (In-less (is_of head ops) a t.entries i))
          ∙ find_ops-none head ops rest_of entries_of r.rest f a i in
      record {
        entries = entries_of;
        holds = r.rest;
        alike = left-Alike;
        opened = λ h.
            ground
              (arith, t.opened h, fewer h, none_left, count-remove_one h r.entry.handle s.opened);
        names = λ p. ground (
          arith,
          t.names p,
          none_left,
          r.counts (λ (a : Entry). p == a.name),
          count-remove_one p r.entry.name s.names,
        );
      }

-- A release.
pub release-IsShared :
    (head : ℕ → ℕ) (ops : Option ℕ) (s s' : Loaded) (err : ArtikError)
    → IsShared head s
    → os_release_api_module head ops s ≡ some (err, s')
    → IsShared head s'
unfolding os_release_api_module is_ok
release-IsShared head none s s' err t h = subst (IsShared head) (cc) t
release-IsShared head (some ops) s s' err t h =
    elim (Option-cases (find_ops head ops s.requested_node)) [
      | inl f ↦ absurd (ground (arith, h))
      | inr (none, f) ↦ subst (IsShared head) (ground (arith, h)) t
      | inr (some n, f) ↦
          let r : IsFound head ops s.requested_node t.entries n =
            find_ops-IsFound head ops s.requested_node t.entries n t.holds f in
          let u = delete_check-found (same_ops head ops) s.requested_node n r.first in
          elim (Option-cases (find_ops head ops (without (same_ops head ops) s.requested_node))) [
            | inl g ↦ absurd (ground (arith, h, u))
            | inr (none, g) ↦
                subst (IsShared head) (ground (arith, h, u, r.node))
                  (last-IsShared head ops s n t r g)
            | inr (some x, g) ↦
                subst (IsShared head) (ground (arith, h, u)) (kept-IsShared head ops s n t r x g)
          ]
    ]

-- What changes the state: a request that succeeds, and a release, whatever it answers.
pub data Step (head : ℕ → ℕ) : Loaded → Loaded → Type 0 where
  requested :
      (sys : System) (table : List ApiModule) (name : Bytes) (d : ℕ) (s t : Loaded)
      → IsHonest head sys name s d
      → os_request_api_module sys (some table) (some name) s ≡ some (some d, t)
      → Step head s t
  released :
      (ops : Option ℕ) (err : ArtikError) (s t : Loaded)
      → os_release_api_module head ops s ≡ some (err, t)
      → Step head s t

pub data Reach (head : ℕ → ℕ) (s : Loaded) : Loaded → Type 0 where
  here : Reach head s s
  next : {t u : Loaded} → Reach head s t → Step head t u → Reach head s u

-- Where `malloc` gives new blocks and the functions of different modules begin differently: after any
-- requests that succeed and any releases, in any order, each node of the list is a complete request,
-- a library is open as often as different requested modules have it, and the block of a name is
-- allocated once while some request has it, and not otherwise. This holds again if it held before.
pub Reach-IsShared :
    (head : ℕ → ℕ) {s t : Loaded} → IsShared head s → Reach head s t → IsShared head t
Reach-IsShared head h here = h
Reach-IsShared head h (next r (requested sys table name d s t o e)) =
    request-IsShared head sys table name s t d (Reach-IsShared head h r) o e
Reach-IsShared head h (next r (released ops err s t e)) =
    release-IsShared head ops s t err (Reach-IsShared head h r) e
