-- ===== src/Modules.antt =====
-- src/modules/base/module/linux_module.c: the modules that the process has requested. A module is a
-- shared library with a symbol; the list has one node for each request that is not released.
pub mod Platform
pub mod Entries
pub mod Counts
pub mod Sharing
pub mod Counting
pub mod Faults
mod Tests
use artik_sdk.Prelude.Counting.{remove_one}
use artik_sdk.Prelude.{
  ℕ, ◌+◌, Bool, true, false, ◌&&◌, Option, none, some, List, [], ◌∷◌, ◌++◌, ◌==◌, take,
  if◌then◌else◌,
}
use artik_sdk.Prelude.Text.{Bytes, codes, snprintf}
use artik_sdk.Error.{ArtikError, s_ok, e_bad_args, is_ok}
use artik_sdk.ArtikList.{ArtikList, Node, sizeof_artik_list, add, delete_check}
use artik_sdk.ArtikList.Store.{store}

-- `artik_module_info`; `none` is NULL. The name is an allocated block with its text.
pub record ModuleInfo : Type 0 where
  pub module_name : Option (ℕ × Bytes)
  pub dl_handle : Option ℕ
  pub dl_symbol : Option ℕ

-- A row of the table of the platform, `artik_api_module`.
pub record ApiModule : Type 0 where
  pub id : ℕ
  pub name : Bytes
  pub object : Bytes

-- What the process holds: the list, the blocks of the names, and the libraries by the calls of
-- `dlopen` without a `dlclose`.
pub record Loaded : Type 0 where
  pub requested_node : ArtikList ModuleInfo
  pub names : List ℕ
  pub opened : List ℕ

-- What the system answers to a request: the two calls of `malloc`, `dlopen` by path, and `dlsym` by
-- handle and symbol. `version` is the version in the file names.
pub record System : Type 0 where
  pub node : Option ℕ
  pub name : Option ℕ
  pub dlopen : Bytes → Option ℕ
  pub dlsym : ℕ → Bytes → Option ℕ
  pub version : Bytes

abbrev pub max_str_len : ℕ
max_str_len = 1024

abbrev pub max_module_name : ℕ
max_module_name = 32

abbrev pub blank : ModuleInfo
blank = record { module_name = none; dl_handle = none; dl_symbol = none }

abbrev pub sizeof_artik_module_node : ℕ
sizeof_artik_module_node = sizeof_artik_list + 24

abbrev pub same_bytes : Bytes → Bytes → Bool
same_bytes [] [] = true
same_bytes [] (y ∷ ys) = false
same_bytes (x ∷ xs) [] = false
same_bytes (x ∷ xs) (y ∷ ys) = (x == y) && same_bytes xs ys

-- `strncmp(text, target, strlen(target)) == 0`
abbrev pub begins_with : Bytes → Bytes → Bool
begins_with text [] = true
begins_with [] (y ∷ ys) = false
begins_with (x ∷ xs) (y ∷ ys) = (x == y) && begins_with xs ys

-- `while (artik_api_modules[platid][i].object != NULL)`
pub find_module : Bytes → List ApiModule → Option ApiModule
find_module name [] = none
find_module name (row ∷ rows) =
    if same_bytes (take max_module_name row.name) (take max_module_name name)
    then some row
    else find_module name rows

-- The search by `artik_compare_module_name`, which reads the name of each node that it passes;
-- `none` is the fault of a NULL one.
pub find_name : Bytes → ArtikList ModuleInfo → Option (Option (Node ModuleInfo))
find_name name [] = some none
find_name name (x ∷ l) = elim x.payload.module_name [
  | none ↦ none
  | some (p, text) ↦ if begins_with text name then some (some x) else find_name name l
]

-- The search by `artik_compare_module_ops`: `head` is the first pointer of the functions at an
-- address, and `none` the fault of a NULL symbol.
pub find_ops : (ℕ → ℕ) → ℕ → ArtikList ModuleInfo → Option (Option (Node ModuleInfo))
find_ops head ops [] = some none
find_ops head ops (x ∷ l) = elim x.payload.dl_symbol [
  | none ↦ none
  | some d ↦ if head d == head ops then some (some x) else find_ops head ops l
]

abbrev pub same_ops : (ℕ → ℕ) → ℕ → Node ModuleInfo → Bool
same_ops head ops x = elim x.payload.dl_symbol [ none ↦ false | some d ↦ head d == head ops ]

unfoldable pub dlclose : ℕ → Loaded → Loaded
unfolding remove_one
dlclose h s = record s { opened = remove_one h s.opened }

-- The result, `none` for INVALID_MODULE, and the state; the outer `none` is a fault.
abbrev pub Requested : Type 0
Requested = Option (Option ℕ × Loaded)

-- The last lines: the block is filled in.
unfoldable pub fill_info : ℕ → ModuleInfo → Loaded → Requested
fill_info n info s = some (
  info.dl_symbol,
  record s { requested_node = store n (λ x. record x { payload = info }) s.requested_node },
)

-- From the label `exit`: the name is copied if there is none yet.
unfoldable pub named : System → Bytes → ℕ → Option (ℕ × Bytes) → ℕ → Option ℕ → Loaded → Requested
unfolding fill_info dlclose
named sys name n (some m) h d s =
    fill_info n (record { module_name = some m; dl_handle = some h; dl_symbol = d }) s
named sys name n none h d s = elim sys.name [
  | none ↦ some (none, dlclose h s)
  | some p ↦
      fill_info n (record { module_name = some (p, name); dl_handle = some h; dl_symbol = d })
        (record s { names = p ∷ s.names })
]

-- "libartik-sdk-%s.so.%d.%d.%d" and "%s_module"
unfoldable pub path_string : Bytes → Bytes → Bytes
unfolding codes
path_string object version =
    snprintf max_str_len (codes "libartik-sdk-" ++ (object ++ (codes ".so." ++ version)))

unfoldable pub module_string : Bytes → Bytes
unfolding codes
module_string name = snprintf max_str_len (name ++ codes "_module")

unfoldable pub open_library :
    System → ApiModule → Bytes → ℕ → Option (ℕ × Bytes) → Loaded → Requested
unfolding named dlclose path_string module_string
open_library sys row name n module_name s = elim (sys.dlopen (path_string row.object sys.version)) [
  | none ↦ some (none, s)
  | some h ↦ elim (sys.dlsym h (module_string name)) [
    | none ↦ some (none, dlclose h (record s { opened = h ∷ s.opened }))
    | some d ↦ named sys name n module_name h (some d) (record s { opened = h ∷ s.opened })
  ]
]

-- `else if (dl_handle) goto exit`, for the node that was found.
unfoldable pub share :
    System → ApiModule → Bytes → ℕ → Option (Node ModuleInfo) → Loaded → Requested
unfolding named open_library
share sys row name n none s = open_library sys row name n none s
share sys row name n (some k) s = elim k.payload.dl_handle [
  | none ↦ open_library sys row name n k.payload.module_name s
  | some h ↦ named sys name n k.payload.module_name h k.payload.dl_symbol s
]

unfoldable pub enter :
    System
    → ApiModule
    → Bytes
    → Option (Node ModuleInfo)
    → Loaded
    → Option (Node ModuleInfo) × ArtikList ModuleInfo
    → Requested
unfolding share
enter sys row name found s (none, l) = some (none, record s { requested_node = l })
enter sys row name found s (some n, l) =
    share sys row name n.addr found (record s { requested_node = l })

-- `table` is that of the platform, `none` where the platform is not known; `name` is `none` for NULL.
pub os_request_api_module : System → Option (List ApiModule) → Option Bytes → Loaded → Requested
unfolding enter
os_request_api_module sys none name s = some (none, s)
os_request_api_module sys (some table) none s = some (none, s)
os_request_api_module sys (some table) (some name) s = elim (find_module name table) [
  | none ↦ some (none, s)
  | some row ↦ elim (find_name name s.requested_node) [
    | none ↦ none
    | some found ↦
        enter sys row name found s (add s.requested_node 0 sizeof_artik_module_node sys.node blank)
  ]
]

-- `free(module_name); dlclose(dl_handle);`
unfoldable pub unload : ModuleInfo → Loaded → Loaded
unfolding remove_one dlclose
unload info s =
    let s' : Loaded = elim info.module_name [
      | none ↦ s
      | some (p, text) ↦ record s { names = remove_one p s.names }
    ] in
    elim info.dl_handle [ none ↦ s' | some h ↦ dlclose h s' ]

unfoldable pub released : (ℕ → ℕ) → ℕ → ModuleInfo → Loaded → Option (ArtikError × Loaded)
unfolding unload
released head ops info s = elim (find_ops head ops s.requested_node) [
  | none ↦ none
  | some none ↦ some (s_ok, unload info s)
  | some (some x) ↦ some (s_ok, s)
]

unfoldable pub deleted :
    (ℕ → ℕ)
    → ℕ
    → ModuleInfo
    → Loaded
    → ArtikError × ArtikList ModuleInfo
    → Option (ArtikError × Loaded)
unfolding released
deleted head ops info s (err, l) =
    let s' : Loaded = record s { requested_node = l } in
    if is_ok err then released head ops info s' else some (err, s')

-- `module` is `none` for NULL, and otherwise an address that can be read; the result `none` is a fault.
pub os_release_api_module : (ℕ → ℕ) → Option ℕ → Loaded → Option (ArtikError × Loaded)
unfolding find_ops deleted
os_release_api_module head none s = some (e_bad_args, s)
os_release_api_module head (some ops) s = elim (find_ops head ops s.requested_node) [
  | none ↦ none
  | some none ↦ some (e_bad_args, s)
  | some (some n) ↦
      let r = delete_check s.requested_node (some (same_ops head ops)) in
      deleted head ops n.payload s (r.0, r.1)
]
