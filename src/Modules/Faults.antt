-- ===== src/Modules/Faults.antt =====
-- linux_module.c: when a request or a release faults.
use artik_sdk.Prelude.{ℕ, ◌≡◌, refl, none, some, List, [], ◌∷◌, ◌++◌, inl, inr, arith, Option-cases}
use artik_sdk.Prelude.Text.{Bytes}
use artik_sdk.ArtikList.{ArtikList, Node, new_node}
use artik_sdk.ArtikList.Lookup.{add_lem}
use artik_sdk.Modules.{
  ModuleInfo, ApiModule, Loaded, System, blank, sizeof_artik_module_node, find_module, find_name,
  os_request_api_module, path_string,
}

find_name-blank :
    (name : Bytes) (l : ArtikList ModuleInfo) (x : Node ModuleInfo)
    → find_name name l ≡ some none
    → x.payload.module_name ≡ none
    → find_name name (l ++ x ∷ []) ≡ none
unfolding find_name
find_name-blank name [] x h e = ground (arith, e)
find_name-blank name (y ∷ l) x h e = elim (Option-cases y.payload.module_name) [
  | inl n ↦ ground (arith, h)
  | inr ((p, text), n) ↦ ground (arith, h, find_name-blank name l x, e)
]

-- A request whose library cannot be opened leaves its empty node in the list: it answers
-- INVALID_MODULE, and the next request of a module of the platform that is not there yet faults,
-- whatever the system answers then.
pub os_request_api_module-broken :
    (sys sys' : System) (table : List ApiModule) (row row' : ApiModule) (name name' : Bytes)
    (s : Loaded) (p : ℕ)
    → find_module name table ≡ some row
    → find_module name' table ≡ some row'
    → find_name name s.requested_node ≡ some none
    → find_name name' s.requested_node ≡ some none
    → sys.node ≡ some p
    → sys.dlopen (path_string row.object sys.version) ≡ none
    → (t : Loaded) × (os_request_api_module sys (some table) (some name) s ≡ some (none, t))
      × (os_request_api_module sys' (some table) (some name') t ≡ none)
unfolding os_request_api_module new_node
os_request_api_module-broken sys sys' table row row' name name' s p k k' f f' g o =
    let x : Node ModuleInfo = new_node p blank 0 sizeof_artik_module_node in
    let a = add_lem s.requested_node 0 sizeof_artik_module_node p blank (omega arith) in
    (
      record s { requested_node = s.requested_node ++ x ∷ [] },
      ground (arith, k, f, g, o, a),
      ground (arith, k', find_name-blank name' s.requested_node x f' refl),
    )
