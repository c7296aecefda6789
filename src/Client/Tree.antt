-- ===== src/Client/Tree.antt =====
-- The project tree of crates/proxygit-client/src/lib.rs: `build_project_tree_from_entries`,
-- `insert_path` and `generate_project_map`. The map of the directories is an association list, in
-- the order in which they are met.
use proxygit.Prelude.{
  ℕ, ◌≡◌, refl, sym, ap, ◌∙◌, inl, inr, Bool, true, false, ◌&&◌, List, [], ◌∷◌, ◌++◌, map, ◌==◌,
  if◌then◌else◌, Option, none, some, arith, Bool-cases, append-nil, append_assoc,
}
use proxygit.Bytes.{Bytes, bytes_eq}
use proxygit.Bytes.Laws.{bytes_eq→eq, bytes_eq_refl}
use proxygit.Bytes.Ascii.{split}
use proxygit.Bytes.Utf8.{text}
use proxygit.Protocol.Message.{msg_get_project_map, msg_get_project_map_resp}
use proxygit.Protocol.Frame.{Frame}
use proxygit.Indexer.{FileEntry}
use proxygit.Server.{Json, number, array, string, Values, no_values, value, reply, zero_hash}
use proxygit.Client.{
  ClientEnv, Exchange, answered, pool_error, send_error, recv_error, get, mcp_list_directory,
  mcp_stat,
}

abbrev pub Leaf : Type 0
Leaf = Bytes × ℕ

mutual
  -- A directory: its name, its directories and its files.
  pub data Dir : Type 0 where
    directory : Bytes → Dirs → List Leaf → Dir

  pub data Dirs : Type 0 where
    no_dirs : Dirs
    with_dir : Bytes → Dir → Dirs → Dirs

abbrev pub new_dir : Bytes → Dir
new_dir name = directory name no_dirs []

-- `entry(dir).or_insert_with(…)`, and the change of what it gives.
unfoldable pub update : Bytes → (Dir → Dir) → Dirs → Dirs
update name change no_dirs = with_dir name (change (new_dir name)) no_dirs
update name change (with_dir n d dirs) =
    let later = update name change dirs in
    if bytes_eq n name then with_dir n (change d) dirs else with_dir n d later

unfoldable pub insert_path : List Bytes → Leaf → Dir → Dir
unfolding update
insert_path [] leaf (directory name dirs files) = directory name dirs (files ++ leaf ∷ [])
insert_path (s ∷ segments) leaf (directory name dirs files) =
    directory name (update s (insert_path segments leaf) dirs) files

-- All segments but the last one, and the last.
abbrev pub parent_and_name : List Bytes → List Bytes × Bytes
parent_and_name [] = ([], [])
parent_and_name (s ∷ []) = ([], s)
parent_and_name (s ∷ t ∷ segments) =
    let (parent, name) = parent_and_name (t ∷ segments) in (s ∷ parent, name)

abbrev pub parent_of : Bytes → List Bytes
parent_of path = (parent_and_name (split b'/' path)).0

abbrev pub leaf_of : Bytes → ℕ → Leaf
leaf_of path size = ((parent_and_name (split b'/' path)).1, size)

unfoldable pub insert_entries : List (Bytes × ℕ) → Dir → Dir
unfolding insert_path split
insert_entries [] tree = tree
insert_entries ((path, size) ∷ more) tree =
    insert_entries more (insert_path (parent_of path) (leaf_of path size) tree)

unfoldable pub build_project_tree_from_entries : List FileEntry → Dir
unfolding insert_entries
build_project_tree_from_entries entries =
    insert_entries (map (λ (e : FileEntry). (e.path, e.size)) entries) (new_dir (text "."))

-- `as_array` of the field `files`, with the strings in it.
abbrev strings_in : Values → List Bytes
strings_in no_values = []
strings_in (value (string s) more) = s ∷ strings_in more
strings_in (value _ more) = strings_in more

abbrev paths_of : Option Json → Option (List Bytes)
paths_of (some (array vs)) = some (strings_in vs)
paths_of _ = none

abbrev size_of : Option Json → ℕ
size_of (some (number n)) = n
size_of _ = 0

module _ (cenv : ClientEnv) {S : Type 0} (exchange : Frame → S → S × Exchange) where
  -- The old way: one `mcp_stat` for each file.
  unfoldable pub stat_all : ℕ → List Bytes → S → S × List (Bytes × ℕ)
  unfolding mcp_stat get
  stat_all project_id [] s = (s, [])
  stat_all project_id (path ∷ paths) s =
      let (s', st) = mcp_stat cenv exchange project_id path s in
      let (last, sizes) = stat_all project_id paths s' in
      (last, (path, size_of (get (text "size") st)) ∷ sizes)

  abbrev stated : S × List (Bytes × ℕ) → S × Option Dir
  stated (s, sizes) = (s, some (insert_entries sizes (new_dir (text "."))))

  abbrev listed : ℕ → S → Option (List Bytes) → S × Option Dir
  listed project_id s none = (s, none)
  listed project_id s (some paths) = stated (stat_all project_id paths s)

  abbrev map_entries : Exchange → Option (List FileEntry)
  map_entries (answered resp) =
      if resp.msg_type == msg_get_project_map_resp
      then cenv.entries_from_slice resp.payload
      else none
  map_entries (pool_error e) = none
  map_entries (send_error e) = none
  map_entries (recv_error e) = none

  -- The tree, or `none` where the answer is the error "failed to list project files".
  unfoldable pub generate_project_map : ℕ → S → S × Option Dir
  unfolding build_project_tree_from_entries mcp_list_directory get stat_all insert_entries
  generate_project_map project_id s =
      let (s1, x) = exchange (reply msg_get_project_map project_id zero_hash []) s in
      let (s2, entries) = mcp_list_directory cenv exchange project_id (text "/") s1 in
      elim (map_entries x) [
        | some es ↦ (s1, some (build_project_tree_from_entries es))
        | none ↦ listed project_id s2 (paths_of (get (text "files") entries))
      ]

-- What a reader of the tree finds: the directory under a name, and the files under a path.
unfoldable pub find_dir : Bytes → Dirs → Option Dir
find_dir name no_dirs = none
find_dir name (with_dir n d dirs) =
    let later = find_dir name dirs in if bytes_eq n name then some d else later

unfoldable pub files_at : List Bytes → Dir → List Leaf
unfolding find_dir
files_at [] (directory name dirs files) = files
files_at (s ∷ segments) (directory name dirs files) = elim (find_dir s dirs) [
  | none ↦ []
  | some d ↦ files_at segments d
]

abbrev pub same_path : List Bytes → List Bytes → Bool
same_path [] [] = true
same_path [] (t ∷ ts) = false
same_path (s ∷ ss) [] = false
same_path (s ∷ ss) (t ∷ ts) = bytes_eq s t && same_path ss ts

-- The files that stand directly in a directory, in the order of the entries.
unfoldable pub files_in : List Bytes → List (Bytes × ℕ) → List Leaf
files_in at [] = []
files_in at ((path, size) ∷ more) =
    if same_path (parent_of path) at then leaf_of path size ∷ files_in at more else files_in at more

abbrev found_or_new : Bytes → Option Dir → Dir
found_or_new name none = new_dir name
found_or_new name (some d) = d

find_dir-update :
    (s q : Bytes) (change : Dir → Dir) (dirs : Dirs)
    → find_dir q (update s change dirs)
      ≡ (if bytes_eq s q then some (change (found_or_new s (find_dir s dirs))) else find_dir q dirs)
unfolding find_dir update
find_dir-update s q change no_dirs = refl
find_dir-update s q change (with_dir n d dirs) = elim (Bool-cases (bytes_eq n s)) [
  | inl e ↦
      rw (e, bytes_eq→eq n s e)
        (elim (Bool-cases (bytes_eq s q)) [ inl t ↦ rw t refl | inr t ↦ rw t refl ])
  | inr e ↦ rw e (elim (Bool-cases (bytes_eq n q)) [
    | inr t ↦ rw t (find_dir-update s q change dirs)
    | inl t ↦ rw (t, differs n s q e t) refl
  ])
]
  where
    differs : (n s q : Bytes) → bytes_eq n s ≡ false → bytes_eq n q ≡ true → bytes_eq s q ≡ false
    differs n s q e t = ground (arith, e, bytes_eq→eq n q t, bytes_eq→eq s q, bytes_eq_refl s)

files_at-new_dir : (segments : List Bytes) (name : Bytes) → files_at segments (new_dir name) ≡ []
unfolding files_at find_dir
files_at-new_dir [] name = refl
files_at-new_dir (s ∷ segments) name = refl

files_at-found :
    (s : Bytes) (at : List Bytes) (o : Option Dir)
    → files_at at (found_or_new s o) ≡ (elim o [ none ↦ [] | some d ↦ files_at at d ])
files_at-found s at none = files_at-new_dir at s
files_at-found s at (some d) = refl

files_at-insert_path :
    (segments at : List Bytes) (leaf : Leaf) (tree : Dir)
    → files_at at (insert_path segments leaf tree)
      ≡ files_at at tree ++ (if same_path segments at then leaf ∷ [] else [])
unfolding files_at insert_path
files_at-insert_path [] [] leaf (directory name dirs files) = refl
files_at-insert_path [] (t ∷ at) leaf (directory name dirs files) = sym (append-nil _)
files_at-insert_path (s ∷ segments) [] leaf (directory name dirs files) = sym (append-nil files)
files_at-insert_path (s ∷ segments) (t ∷ at) leaf (directory name dirs files) =
    elim (Bool-cases (bytes_eq s t)) [
      | inl e ↦
          rw (find_dir-update s t (insert_path segments leaf) dirs, files_at, e)
            (files_at-insert_path segments at leaf (found_or_new s (find_dir s dirs))
              ∙ ap (λ l. l ++ (if same_path segments at then leaf ∷ [] else []))
                  (files_at-found s at (find_dir s dirs)
                    ∙ ap (λ z. files_at (z ∷ at) (directory name dirs files)) (bytes_eq→eq s t e)))
      | inr e ↦
          rw (find_dir-update s t (insert_path segments leaf) dirs, files_at, e)
            (sym (append-nil _))
    ]

insert_entries-files_at :
    (entries : List (Bytes × ℕ)) (at : List Bytes) (tree : Dir)
    → files_at at (insert_entries entries tree) ≡ files_at at tree ++ files_in at entries
unfolding insert_entries files_in
insert_entries-files_at [] at tree = sym (append-nil (files_at at tree))
insert_entries-files_at ((path, size) ∷ more) at tree =
    insert_entries-files_at more at (insert_path (parent_of path) (leaf_of path size) tree)
    ∙ ap (λ l. l ++ files_in at more)
        (files_at-insert_path (parent_of path) at (leaf_of path size) tree)
    ∙ append_assoc (files_at at tree) _ (files_in at more)
    ∙ ap (λ l. files_at at tree ++ l)
        (elim (Bool-cases (same_path (parent_of path) at)) [
          | inl e ↦ rw e refl
          | inr e ↦ rw e refl
        ])

-- Each directory of the tree that is built from the entries lists exactly the files whose path has
-- the directory's segments before its last one, by name and size, in the order of the entries.
pub files_at-build_project_tree_from_entries :
    (entries : List FileEntry) (at : List Bytes)
    → files_at at (build_project_tree_from_entries entries)
      ≡ files_in at (map (λ (e : FileEntry). (e.path, e.size)) entries)
unfolding build_project_tree_from_entries
files_at-build_project_tree_from_entries entries at =
    insert_entries-files_at (map (λ (e : FileEntry). (e.path, e.size)) entries) at
      (new_dir (text "."))
    ∙ ap (λ l. l ++ files_in at (map (λ (e : FileEntry). (e.path, e.size)) entries))
        (files_at-new_dir at (text "."))
