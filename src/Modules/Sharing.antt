-- ===== src/Modules/Sharing.antt =====
-- linux_module.c: the libraries and names that the process holds against the requests that are not
-- released.
use artik_sdk.Prelude.{
  ℕ, All, ◌≡◌, refl, sym, ◌∙◌, false, none, some, List, [], ◌∷◌, ◌++◌, ◌⊎◌, subst, inl, inr, arith,
  ◌==◌, Bool-cases, min,
}
use artik_sdk.Prelude.Text.{Bytes}
use artik_sdk.ArtikList.{ArtikList, Node, new_node}
use artik_sdk.ArtikList.Lookup.{add_lem}
use artik_sdk.ArtikList.Store.{IsFresh, store-append}
use artik_sdk.Modules.{
  ModuleInfo, ApiModule, Loaded, System, blank, sizeof_artik_module_node, find_module, find_name,
  same_ops, begins_with, os_request_api_module, path_string, module_string,
}
use artik_sdk.Prelude.Counting.{count, count_if-append}
use artik_sdk.Modules.Entries.{
  Entry, info_of, Holds, Holds-append, sharers, sharers-In, loads, In, In-append,
}
use artik_sdk.Modules.Counts.{loads-append_new, loads-append_shared}

-- Two requests are of one module, by its functions, if they have one name; then they have one library.
abbrev pub Alike : (ℕ → ℕ) → Entry → Entry → Type 0
Alike head a b =
    ((head b.symbol == head a.symbol) ≡ (a.name == b.name))
    × (a.name ≡ b.name → b.handle ≡ a.handle)

-- Each node is a complete request; a library is open as often as different requested modules have it,
-- and the block of a name is allocated once while some request has it.
pub record IsShared (head : ℕ → ℕ) (s : Loaded) : Type 0 where
  pub entries : List Entry
  pub holds : Holds s.requested_node entries
  pub alike : (a b : Entry) → In a entries → In b entries → Alike head a b
  pub opened : (h : ℕ) → count h s.opened ≡ loads h entries
  pub names : (p : ℕ) → count p s.names ≡ min 1 (sharers p entries)

find_name-In :
    (name : Bytes) (l : ArtikList ModuleInfo) (es : List Entry) (k : Node ModuleInfo)
    → Holds l es
    → find_name name l ≡ some (some k)
    → (e : Entry) × (k.payload ≡ info_of e) × In e es
unfolding find_name
find_name-In name [] es k t h = absurd (cc)
find_name-In name (x ∷ l) [] k t h = absurd t
find_name-In name (x ∷ l) (e ∷ es) k t h = elim (Bool-cases (begins_with e.text name)) [
  | inl y ↦ (e, ground (arith, t.0), inl refl)
  | inr n ↦
      let r : (f : Entry) × (k.payload ≡ info_of f) × In f es =
        find_name-In name l es k t.1 (ground (arith, t.0)) in
      (r.0, r.1, inr r.2)
]

-- The node of a new request.
abbrev pub node_of : ℕ → Entry → Node ModuleInfo
node_of p e = record (new_node p blank 0 sizeof_artik_module_node) { payload = info_of e }

module _ (sys : System) (table : List ApiModule) (row : ApiModule) (name : Bytes) (s : Loaded)
    (p : ℕ) (known : find_module name table ≡ some row) (given : sys.node ≡ some p)
    (fresh : IsFresh p s.requested_node) where
  request-shared :
      (k : Node ModuleInfo) (e : Entry)
      → find_name name s.requested_node ≡ some (some k)
      → k.payload ≡ info_of e
      → os_request_api_module sys (some table) (some name) s
        ≡ some (some e.symbol, record s { requested_node = s.requested_node ++ node_of p e ∷ [] })
  unfolding os_request_api_module new_node
  request-shared k e f h = ground (
    arith,
    known,
    f,
    given,
    fresh,
    add_lem s.requested_node 0 sizeof_artik_module_node p blank (omega arith),
    store-append p (λ (x : Node ModuleInfo). record x { payload = info_of e }) s.requested_node
        (new_node p blank 0 sizeof_artik_module_node) refl fresh,
  )

  request-new :
      (h d q : ℕ)
      → find_name name s.requested_node ≡ some none
      → sys.dlopen (path_string row.object sys.version) ≡ some h
      → sys.dlsym h (module_string name) ≡ some d
      → sys.name ≡ some q
      → os_request_api_module sys (some table) (some name) s
        ≡ some (
          some d,
          record {
            requested_node =
                s.requested_node
                ++ node_of p (record { name = q; text = name; handle = h; symbol = d }) ∷ [];
            names = q ∷ s.names;
            opened = h ∷ s.opened;
          },
        )
  unfolding os_request_api_module new_node
  request-new h d q f e g m = ground (
    arith,
    known,
    f,
    given,
    e,
    g,
    m,
    add_lem s.requested_node 0 sizeof_artik_module_node p blank (omega arith),
    store-append p
        (λ (x : Node ModuleInfo). record x {
          payload = info_of (record { name = q; text = name; handle = h; symbol = d });
        })
        s.requested_node (new_node p blank 0 sizeof_artik_module_node) refl fresh,
  )

-- A new request of a module that somebody has, and of one that nobody has.
module _ (head : ℕ → ℕ) (s : Loaded) (t : IsShared head s) (p : ℕ) where
  repeated-IsShared :
      (e : Entry)
      → In e t.entries
      → IsShared head (record s { requested_node = s.requested_node ++ node_of p e ∷ [] })
  repeated-IsShared e i = record {
    entries = t.entries ++ e ∷ [];
    holds = Holds-append s.requested_node t.entries (node_of p e) e t.holds refl;
    alike = λ a b u v.
        t.alike a b (within a (In-append a e t.entries u)) (within b (In-append b e t.entries v));
    opened = λ h.
        t.opened h
        ∙ sym (
            loads-append_shared h t.entries e (λ a j. (t.alike e a i j).1)
              (sharers-In e t.entries i));
    names = λ q. ground (
      arith,
      t.names q,
      count_if-append (λ (a : Entry). q == a.name) t.entries (e ∷ []),
      sharers-In e t.entries i,
    );
  }
    where
      within : (a : Entry) → In a t.entries ⊎ (a ≡ e) → In a t.entries
      within a (inl j) = j
      within a (inr g) = subst (λ (x : Entry). In x t.entries) (sym g) i

  new-IsShared :
      (e : Entry)
      → count e.name s.names ≡ 0
      → ((a : Entry) → In a t.entries → (head a.symbol == head e.symbol) ≡ false)
      → IsShared head (record {
        requested_node = s.requested_node ++ node_of p e ∷ [];
        names = e.name ∷ s.names;
        opened = e.handle ∷ s.opened;
      })
  new-IsShared e z w = record {
    entries = t.entries ++ e ∷ [];
    holds = Holds-append s.requested_node t.entries (node_of p e) e t.holds refl;
    alike = λ a b u v. alike' a b (In-append a e t.entries u) (In-append b e t.entries v);
    opened = λ h. ground (arith, t.opened h, loads-append_new h t.entries e nobody);
    names = λ q.
        ground (arith, t.names q, count_if-append (λ (a : Entry). q == a.name) t.entries (e ∷ []));
  }
    where
      nobody : sharers e.name t.entries ≡ 0
      nobody = ground (arith, t.names e.name, z)

      unnamed : (a : Entry) → In a t.entries → (a.name == e.name) ≡ false
      unnamed a i = elim (Bool-cases (a.name == e.name)) [
        | inl y ↦ absurd (ground (arith, sharers-In a t.entries i, nobody))
        | inr n ↦ n
      ]

      alike' : (a b : Entry) → In a t.entries ⊎ (a ≡ e) → In b t.entries ⊎ (b ≡ e) → Alike head a b
      alike' a b (inl i) (inl j) = t.alike a b i j
      alike' a b (inl i) (inr j) =
          rw j (ground (arith, w a i, unnamed a i), ground (arith, unnamed a i))
      alike' a b (inr i) (inl j) =
          rw i (ground (arith, w b j, unnamed b j), ground (arith, unnamed b j))
      alike' a b (inr i) (inr j) = rw (i, j) (ground arith, λ q. refl)

-- What `malloc` and the loader promise to a request that gives `d`: new blocks, and functions that
-- begin otherwise than those of the other modules where the module is not there yet.
pub record IsHonest (head : ℕ → ℕ) (sys : System) (name : Bytes) (s : Loaded) (d : ℕ) : Type 0 where
  pub node : (p : ℕ) → sys.node ≡ some p → IsFresh p s.requested_node
  pub block : (q : ℕ) → sys.name ≡ some q → count q s.names ≡ 0
  pub symbol :
      find_name name s.requested_node ≡ some none
      → All (λ x. same_ops head d x ≡ false) s.requested_node

others :
    (head : ℕ → ℕ) (d : ℕ) (l : ArtikList ModuleInfo) (es : List Entry)
    → Holds l es
    → All (λ x. same_ops head d x ≡ false) l
    → (a : Entry) → In a es
    → (head a.symbol == head d) ≡ false
others head d [] [] t w a i = absurd i
others head d [] (e ∷ es) t w a i = absurd t
others head d (x ∷ l) [] t w a i = absurd t
others head d (x ∷ l) (e ∷ es) t w a (inl i) = rw i (ground (arith, t.0, w.0))
others head d (x ∷ l) (e ∷ es) t w a (inr i) = others head d l es t.1 w.1 a i

module _ (head : ℕ → ℕ) (sys : System) (table : List ApiModule) (row : ApiModule) (name : Bytes)
    (s s' : Loaded) (d : ℕ) (t : IsShared head s) (o : IsHonest head sys name s d)
    (known : find_module name table ≡ some row)
    (done : os_request_api_module sys (some table) (some name) s ≡ some (some d, s')) where
  pub found-IsShared :
      (k : Node ModuleInfo) (p : ℕ)
      → find_name name s.requested_node ≡ some (some k)
      → sys.node ≡ some p
      → IsShared head s'
  found-IsShared k p f g =
      let r : (e : Entry) × (k.payload ≡ info_of e) × In e t.entries =
        find_name-In name s.requested_node t.entries k t.holds f in
      subst (IsShared head)
        (ground
          (arith, done, request-shared sys table row name s p known g (o.node p g) k r.0 f r.1))
        (repeated-IsShared head s t p r.0 r.2)

  pub absent-IsShared :
      (p h x q : ℕ)
      → find_name name s.requested_node ≡ some none
      → sys.node ≡ some p
      → sys.dlopen (path_string row.object sys.version) ≡ some h
      → sys.dlsym h (module_string name) ≡ some x
      → sys.name ≡ some q
      → IsShared head s'
  absent-IsShared p h x q f g a b c =
      let e : Entry = record { name = q; text = name; handle = h; symbol = d } in
      let r = request-new sys table row name s p known g (o.node p g) h x q f a b c in
      let same : x ≡ d = ground (arith, r, done) in
      subst (IsShared head) (ground (arith, r, done)) (
        new-IsShared head s t p e (o.block q c)
          (others head d s.requested_node t.entries t.holds (o.symbol f)))
