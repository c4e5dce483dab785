-- ===== src/Fscache.antt =====
-- vfs/fscache.c: finding a node by its path in the tree of cached nodes, loading what is missing, with the
-- locks of the nodes as the call leaves them while no other thread runs. Node 0 does not exist.
use plenjos_kernel.Prelude.{
  ℕ, zero, suc, ◌+◌, ◌-◌, ◌%◌, Bool, true, false, Option, none, some, List, [], ◌∷◌, ◌==◌, ◌&&◌,
  ◌||◌, not, if◌then◌else◌, bit_and,
}
use plenjos_kernel.Prelude.Int.{ℤ, pos, negsuc}
use plenjos_kernel.Access.{access_check}
pub mod Links
pub mod Locks
pub mod Loading
pub mod Steps
pub mod Request
mod Examples

abbrev pub slash : ℕ
slash = 47

abbrev pub dot : ℕ
dot = 46

abbrev pub dt_dir : ℕ
dt_dir = 4

abbrev pub dt_unknown : ℕ
dt_unknown = 128

-- the number that FSCACHE_REQUEST_NODE_ONE_LEVEL_AWAY is, and the errors
abbrev pub one_level_away : ℤ
one_level_away = pos 1

abbrev pub enoent : ℤ
enoent = negsuc 1

abbrev pub enomem : ℤ
enomem = negsuc 11

abbrev pub eio : ℤ
eio = negsuc 4

abbrev pub einval : ℤ
einval = negsuc 21

abbrev pub eacces : ℤ
eacces = negsuc 12

abbrev pub enotdir : ℤ
enotdir = negsuc 19

-- `struct fscache_node`; the children are those that the sibling links go through. Type 0 is a free slot.
pub record Node : Type 0 where
  pub type : ℕ
  pub name : List ℕ
  pub uid : ℕ
  pub gid : ℕ
  pub mode : ℕ
  pub parent_node : Option ℕ
  pub children : List ℕ

-- The nodes, the `state` of each one's lock, and the slots in the order of the blocks.
pub record Cache : Type 0 where
  pub nodes : ℕ → Node
  pub locks : ℕ → ℤ
  pub slots : List ℕ

unfoldable pub set_node : Cache → ℕ → Node → Cache
set_node s n node = record s { nodes = λ u. if u == n then node else s.nodes u }

unfoldable pub set_lock : Cache → ℕ → ℤ → Cache
set_lock s n l = record s { locks = λ u. if u == n then l else s.locks u }

-- A lock that cannot be taken is waited for, for ever: no other thread is there to release it.
abbrev pub add_reader : ℤ → Option ℤ
add_reader (pos n) = some (pos (n + 1))
add_reader (negsuc n) = none

abbrev pub remove_reader : ℤ → ℤ
remove_reader (pos zero) = negsuc 0
remove_reader (pos (suc n)) = pos n
remove_reader (negsuc n) = negsuc (n + 1)

-- the exchange of 0 for -1 once the reader is gone
abbrev pub readers_to_writer : ℤ → Option ℤ
readers_to_writer (pos n) = if n == 1 then some (negsuc 0) else none
readers_to_writer (negsuc n) = none

-- one part of a path, and whether the path ends with it
pub record Token : Type 0 where
  pub text : List ℕ
  pub at_end : Bool

-- The text up to the next slash, whether the path ends there, and the tokens behind it.
pub record Split : Type 0 where
  pub text : List ℕ
  pub at_end : Bool
  pub behind : List Token

abbrev pub flush : Split → List Token
flush p = elim p.text [
  | [] ↦ p.behind
  | c ∷ cs ↦ record { text = c ∷ cs; at_end = p.at_end } ∷ p.behind
]

abbrev pub no_split : Split
no_split = record { text = []; at_end = true; behind = [] }

unfoldable pub split_path : List ℕ → Split
split_path [] = no_split
split_path (c ∷ cs) =
    let p = split_path cs in
    if c == slash
    then record { text = []; at_end = false; behind = flush p }
    else record { text = c ∷ p.text; at_end = p.at_end; behind = p.behind }

unfoldable pub path_tokens : List ℕ → List Token
path_tokens path = flush (split_path path)

abbrev pub same_text : List ℕ → List ℕ → Bool
same_text [] [] = true
same_text (c ∷ cs) (d ∷ ds) = (c == d) && same_text cs ds
same_text [] (d ∷ ds) = false
same_text (c ∷ cs) [] = false

-- `_fscache_find_in_children`
unfoldable pub find_in_children : Cache → List ℕ → List ℕ → Option ℕ
find_in_children s [] token = none
find_in_children s (n ∷ ns) token =
    let rest = find_in_children s ns token in
    if same_text (s.nodes n).name token then some n else rest

-- `_fscache_link_node`
unfoldable pub link_node : Cache → ℕ → ℕ → Cache
link_node s parent child =
    let p = s.nodes parent in
    let linked = set_node s parent (record p { children = child ∷ p.children }) in
    set_node linked child (record (linked.nodes child) { parent_node = some parent })

abbrev pub cleared : Node
cleared = record {
  type = dt_unknown;
  name = [];
  uid = 0;
  gid = 0;
  mode = 0;
  parent_node = none;
  children = [];
}

-- `fscache_allocate_node`: the first free slot, cleared, its lock made anew and taken for reading. The
-- slots are those of all blocks that memory will hold.
unfoldable pub first_free : Cache → List ℕ → Option ℕ
first_free s [] = none
first_free s (n ∷ ns) = let rest = first_free s ns in if (s.nodes n).type == 0 then some n else rest

unfoldable pub fscache_allocate_node : Cache → Option (ℕ × Cache)
fscache_allocate_node s = elim (first_free s s.slots) [
  | none ↦ none
  | some n ↦ some (n, set_lock (set_node s n cleared) n (pos 1))
]

-- where a path is followed to: the code, the node and the cache at the label `res_set_and_return`
pub data Outcome : Type 0 where
  stops : ℤ → ℕ → Cache → Outcome
  goes_on : ℕ → Cache → Outcome
  waits : Outcome

abbrev pub is_dot : List ℕ → Bool
is_dot t = same_text t (dot ∷ [])

abbrev pub is_dot_dot : List ℕ → Bool
is_dot_dot t = same_text t (dot ∷ dot ∷ [])

-- `_fscache_wait_for_node_readable` on a node that becomes the current one, after which the lock of the
-- last one is released
unfoldable pub move_to : Cache → ℕ → ℕ → Outcome
move_to s cur next = elim (add_reader (s.locks next)) [
  | none ↦ waits
  | some l ↦
      let s' = set_lock s next l in goes_on next (set_lock s' cur (remove_reader (s'.locks cur)))
]

-- `..`: at the root, the lock of the root is released before the call ends
unfoldable pub to_parent : Cache → ℕ → Outcome
to_parent s cur = elim (s.nodes cur).parent_node [
  | none ↦ stops enoent cur (set_lock s cur (remove_reader (s.locks cur)))
  | some parent ↦ move_to s cur parent
]

-- What `load_node` of the file system makes of a node: its new contents, or an error code.
pub data Loaded : Type 0 where
  loaded : Node → Loaded
  load_error : ℤ → Loaded

abbrev pub is_enoent : ℤ → Bool
is_enoent (negsuc n) = n == 1
is_enoent (pos n) = false

-- what `fscache_request_node` returns: its code, the node that `out` gets, and the cache
pub data Answer : Type 0 where
  answers : ℤ → Option ℕ → Cache → Answer
  hangs : Answer

abbrev pub ends_with_slash : List ℕ → Bool
ends_with_slash [] = false
ends_with_slash (c ∷ []) = c == slash
ends_with_slash (c ∷ d ∷ ds) = ends_with_slash (d ∷ ds)

abbrev pub is_zero : ℤ → Bool
is_zero (pos n) = n == 0
is_zero (negsuc n) = false

-- the code at `res_set_and_return`
abbrev pub final_code : ℤ → ℕ → List ℕ → ℤ
final_code code type path =
    if is_zero code && not (type == dt_dir) && ends_with_slash path then enotdir else code

-- the label `res_set_and_return`, for a call with or without a place for the node
unfoldable pub set_and_return : Bool → List ℕ → Outcome → Answer
set_and_return wanted path (stops code n s) =
    let res = final_code code (s.nodes n).type path in
    if wanted
    then answers res (some n) s
    else answers res none (set_lock s n (remove_reader (s.locks n)))
set_and_return wanted path (goes_on n s) = hangs
set_and_return wanted path waits = hangs

module _ (load_node : Cache → ℕ → List ℕ → Loaded) (uid : ℕ) where
  -- the child that was allocated is loaded: on failure its slot is free again, and the lock of the
  -- current node, taken for writing, is downgraded
  unfoldable pub load_child : Cache → ℕ → Token → ℕ → Outcome
  load_child s cur token child = elim (load_node s cur token.text) [
    | load_error e ↦
        let freed = set_node s child (record (s.nodes child) { type = 0 }) in
        stops (if token.at_end && is_enoent e then one_level_away else e) cur
          (set_lock freed cur (pos 1))
    | loaded node ↦
        goes_on child (set_lock (link_node (set_node s child node) cur child) cur (pos 0))
  ]

  -- the child is not cached: the lock is upgraded, and the child allocated and loaded (the second
  -- search, under the lock, finds no more than the first while no other thread runs)
  unfoldable pub missing_child : Cache → ℕ → Token → Outcome
  missing_child s cur token = elim (readers_to_writer (s.locks cur)) [
    | none ↦ waits
    | some l ↦ elim (fscache_allocate_node (set_lock s cur l)) [
      | none ↦ stops enomem cur (set_lock s cur (pos 1))
      | some (child, s') ↦ load_child s' cur token child
    ]
  ]

  unfoldable pub to_child : Cache → ℕ → Token → Outcome
  to_child s cur token = elim (find_in_children s (s.nodes cur).children token.text) [
    | none ↦ missing_child s cur token
    | some child ↦ move_to s cur child
  ]

  -- one pass of the loop of `fscache_request_node`
  unfoldable pub follow_token : Cache → ℕ → Token → Outcome
  follow_token s cur token =
      let node = s.nodes cur in
      if not (node.type == dt_dir)
      then stops enotdir cur s
      else (if bit_and (access_check node.mode node.uid node.gid uid) 1 == 0
          then stops eacces cur s
          else (if is_dot_dot token.text
              then to_parent s cur
              else (if is_dot token.text then goes_on cur s else to_child s cur token)))

  unfoldable pub follow_tokens : List Token → Cache → ℕ → Outcome
  follow_tokens [] s cur = stops (pos 0) cur s
  follow_tokens (t ∷ ts) s cur = elim (follow_token s cur t) [
    | stops e n s' ↦ stops e n s'
    | goes_on n s' ↦ follow_tokens ts s' n
    | waits ↦ waits
  ]

  -- `fscache_request_node`, when the copy of the path can be allocated
  unfoldable pub fscache_request_node : Option ℕ → Cache → Bool → List ℕ → Answer
  fscache_request_node root s wanted path =
      if same_text path [] then answers einval none s else elim root [
        | none ↦ answers eio none s
        | some r ↦ elim (add_reader (s.locks r)) [
          | none ↦ hangs
          | some l ↦
              set_and_return wanted path (follow_tokens (path_tokens path) (set_lock s r l) r)
        ]
      ]
