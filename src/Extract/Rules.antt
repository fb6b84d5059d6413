-- ===== src/Extract/Rules.antt =====
-- pkg/extract/subgraph/extractor.go: labels, the reading of a rule, and buildSnapshot. The values of
-- labels and strings stand without the structs that wrap them. strings.TrimSpace is an argument, as
-- are the drawn identifier, the time and the duration.
pub mod Origin
pub mod Listed
pub mod Sources
pub mod Laws
use toposcope.Base.{
  ℕ, suc, Str, Bool, true, false, ◌||◌, ◌&&◌, not, ◌==◌, List, [], ◌∷◌, ◌++◌, Option, none, some,
  Dict, insert, contains, add, codes, str_eq, is_empty, has_prefix, has_suffix, drop, length,
  if◌then◌else◌,
}
use toposcope.Graph.{Node, Edge, Snapshot, edge_key}
use toposcope.Graph.Degrees.{collect_packages}

-- xmlList and xmlRule
pub record XmlList : Type 0 where
  pub name : Str
  pub labels : List Str
  pub strs : List Str

pub record XmlRule : Type 0 where
  pub class_name : Str
  pub name : Str
  pub lists : List XmlList

-- The parts before and after the last occurrence, at strings.LastIndex.
unfoldable pub split_last : ℕ → Str → Option (Str × Str)
split_last sep [] = none
split_last sep (c ∷ s) = elim (split_last sep s) [
  | none ↦ if c == sep then some ([], s) else none
  | some parts ↦ some (c ∷ parts.0, parts.1)
]

-- filepath.Base: trailing slashes go first
unfoldable pub strip_slashes : Str → Str
strip_slashes [] = []
strip_slashes (c ∷ s) =
    let rest = strip_slashes s in if is_empty rest && (c == b'/') then [] else c ∷ rest

unfoldable pub last_element : Str → Str
unfolding split_last strip_slashes
last_element [] = codes "."
last_element (c ∷ s) = elim (strip_slashes (c ∷ s)) [
  | [] ↦ codes "/"
  | d ∷ t ↦ elim (split_last b'/' (d ∷ t)) [ none ↦ d ∷ t | some parts ↦ parts.1 ]
]

-- //pkg:pkg -> //pkg
unfoldable pub shorten : Str → Option (Str × Str) → Str
unfolding str_eq last_element
shorten label none = label
shorten label (some ([], target)) = label
shorten label (some (c ∷ pkg, target)) =
    if str_eq target (last_element (c ∷ pkg)) then c ∷ pkg else label

unfoldable pub package_part : Str → Option (Str × Str) → Str
package_part label none = label
package_part label (some ([], target)) = label
package_part label (some (c ∷ pkg, target)) = c ∷ pkg

unfoldable pub label_to_package : Str → Str
unfolding split_last package_part
label_to_package label = package_part label (split_last b':' label)

unfoldable pub is_external_label : Str → Bool
unfolding has_prefix
is_external_label label =
    if has_prefix label (codes "@//") then false else has_prefix label (codes "@")

unfoldable pub is_test_rule : Str → Bool
unfolding has_suffix str_eq
is_test_rule c =
    has_suffix c (codes "_test") || (has_suffix c (codes "_tests") || str_eq c (codes "test_suite"))

unfoldable pub classify_dep : Str → Str
unfolding str_eq
classify_dep attr =
    if str_eq attr (codes "deps")
    then codes "COMPILE"
    else if str_eq attr (codes "runtime_deps")
    then codes "RUNTIME"
    else if str_eq attr (codes "data")
    then codes "DATA"
    else []

unfoldable pub extract_tags : List XmlList → List Str
unfolding str_eq
extract_tags [] = []
extract_tags (l ∷ ls) =
    let rest = extract_tags ls in if str_eq l.name (codes "tags") then l.strs else rest

unfoldable pub extract_visibility : List XmlList → List Str
unfolding str_eq
extract_visibility [] = []
extract_visibility (l ∷ ls) =
    let rest = extract_visibility ls in
    if str_eq l.name (codes "visibility") then l.labels else rest

-- `nodes`, `edges` and `seen`.
pub record Building : Type 0 where
  pub nodes : Dict Node
  pub edges : List Edge
  pub seen : List Str

unfoldable pub add_edge : Edge → Building → Building
unfolding contains edge_key
add_edge e b =
    if contains (edge_key e) b.seen
    then b
    else record b { edges = b.edges ++ e ∷ []; seen = b.seen ++ edge_key e ∷ [] }

module _ (trim_space : Str → Str) where
  unfoldable pub normalize_label : Str → Str
  unfolding has_prefix split_last shorten
  normalize_label label =
      let trimmed = trim_space label in
      let own = if has_prefix trimmed (codes "@//") then drop 1 trimmed else trimmed in
      shorten own (split_last b':' own)

  -- The loops over the labels of a list, the lists of a rule, and the rules.
  unfoldable pub add_deps : Str → Str → List Str → Building → Building
  unfolding is_external_label add_edge normalize_label
  add_deps label edge_type [] b = b
  add_deps label edge_type (dep ∷ deps) b =
      let e : Edge = record { from = label; to = normalize_label dep; type = edge_type } in
      add_deps label edge_type deps (if is_external_label dep then b else add_edge e b)

  unfoldable pub add_lists : Str → List XmlList → Building → Building
  unfolding classify_dep is_empty add_deps
  add_lists label [] b = b
  add_lists label (l ∷ ls) b =
      let edge_type = classify_dep l.name in
      add_lists label ls (if is_empty edge_type then b else add_deps label edge_type l.labels b)

  unfoldable pub node_of : XmlRule → Node
  unfolding label_to_package extract_tags extract_visibility is_test_rule normalize_label
  node_of rule = record {
    key = normalize_label rule.name;
    kind = rule.class_name;
    pkg = label_to_package (normalize_label rule.name);
    tags = extract_tags rule.lists;
    visibility = extract_visibility rule.lists;
    is_test = is_test_rule rule.class_name;
    is_external = false;
  }

  unfoldable pub add_rule : XmlRule → Building → Building
  unfolding is_external_label normalize_label node_of add_lists insert
  add_rule rule b =
      let label = normalize_label rule.name in
      if is_external_label rule.name
      then b
      else add_lists label rule.lists (record b { nodes = insert label (node_of rule) b.nodes })

  unfoldable pub add_rules : List XmlRule → Building → Building
  unfolding add_rule
  add_rules [] b = b
  add_rules (rule ∷ rules) b = add_rules rules (add_rule rule b)

  unfoldable pub build_snapshot : Str → ℕ → ℕ → List XmlRule → Str → List Str → Snapshot
  unfolding add_rules collect_packages
  build_snapshot new_id now elapsed_ms rules commit_sha scope =
      let b = add_rules rules (record { nodes = []; edges = []; seen = [] }) in
      record {
        id = new_id;
        commit_sha = commit_sha;
        branch = [];
        partial = elim scope [ [] ↦ false | _ ∷ _ ↦ true ];
        scope = scope;
        nodes = b.nodes;
        edges = b.edges;
        stats = record {
          node_count = length b.nodes;
          edge_count = length b.edges;
          package_count = length (collect_packages b.nodes []);
          extraction_ms = elapsed_ms;
        };
        extracted_at = now;
      }
