-- ===== src/Tests/Toy.antt =====
-- A small packet library and database engine that meet the laws: a component is a list of bytes
-- whose first byte says if it is text or a version, and a block is a binary tree.
use Prim.Native.Char.{code}
use Prim.Native.String.{String}
use ndns.Prelude.{
  ℕ, zero, suc, ◌+◌, ◌<◌, ◌≡◌, ◌≢◌, ◌↔◌, refl, ap, Bool, true, false, Option, none, some, List, [],
  ◌∷◌, ◌++◌, sym, ◌∙◌, append_assoc, append-nil, arith, Blob, blob_eq, blob_eq_iff, blob_lt,
  blob_lt_irrefl, blob_lt_trans, blob_lt_total, take, drop, length, take-append, All, ◌-◌, ◌==◌,
  ◌&&◌, length-append, All-map,
}
use ndns.Ndn.{Ndn, Packet}
use ndns.Daemon.Sqlite.{Sqlite}

abbrev pub Comp : Type 0
Comp = List ℕ

pub data Tree : Type 0 where
  leaf : ℕ → Tree
  pair : Tree → Tree → Tree

abbrev pub tree_eq : Tree → Tree → Bool
tree_eq (leaf a) (leaf b) = a == b
tree_eq (pair a b) (pair c d) = tree_eq a c && tree_eq b d
tree_eq _ _ = false

pub tree_eq_iff : (a b : Tree) → (tree_eq a b ≡ true) ↔ (a ≡ b)
tree_eq_iff (leaf a) (leaf b) = ground arith
tree_eq_iff (leaf a) (pair c d) = ground arith
tree_eq_iff (pair a b) (leaf c) = ground arith
tree_eq_iff (pair a b) (pair c d) = ground (arith, tree_eq_iff a c, tree_eq_iff b d)

abbrev pub codes : String → List ℕ
codes String.[] = []
codes (String.◌∷◌ c s) = code c ∷ codes s

abbrev pub is_version : Comp → Bool
is_version (suc zero ∷ c) = true
is_version _ = false

abbrev pub is_empty : Comp → Bool
is_empty [] = true
is_empty (x ∷ c) = false

pub is_empty_version : (c : Comp) → is_version c ≡ true → is_empty c ≡ false
is_empty_version [] h = ground arith
is_empty_version (x ∷ c) h = refl

-- an index from the front, and one from the back
abbrev pub at : List Comp → ℕ → Comp
at [] i = []
at (c ∷ n) zero = c
at (c ∷ n) (suc i) = at n i

pub at-append : (n : List Comp) (c : Comp) (m : List Comp) → at (n ++ c ∷ m) (length n) ≡ c
at-append [] c m = refl
at-append (x ∷ n) c m = at-append n c m

abbrev pub from_back : List Comp → ℕ → Comp
from_back n k = at n (length n - k)

pub from_back-append :
    (n : List Comp) (c : Comp) (m : List Comp) → from_back (n ++ c ∷ m) (suc (length m)) ≡ c
from_back-append n c m = rw back (at-append n c m)
  where
    back : length (n ++ c ∷ m) - suc (length m) ≡ length n
    back = omega (arith, length-append n (c ∷ m))

abbrev pub bytes : Comp → Blob
bytes c = length c ∷ c

abbrev pub read : Blob → Option (Comp × ℕ)
read [] = none
read (n ∷ rest) = some (take n rest, suc n)

pub read-bytes : (c : Comp) (rest : Blob) → read (bytes c ++ rest) ≡ some (c, length (bytes c))
read-bytes c rest = rw (take-append c rest)

abbrev pub value : List Comp → Blob
value [] = []
value (c ∷ n) = bytes c ++ value n

abbrev pub from_list : List Tree → Tree
from_list [] = leaf 0
from_list (b ∷ bs) = pair b (from_list bs)

abbrev pub to_list : Tree → List Tree
to_list (leaf n) = []
to_list (pair b bs) = b ∷ to_list bs

pub to_list-from_list : (bs : List Tree) → to_list (from_list bs) ≡ bs
to_list-from_list [] = refl
to_list-from_list (b ∷ bs) = ap (◌∷◌ b) (to_list-from_list bs)

abbrev pub nest : ℕ → List Tree → Tree
nest t bs = pair (leaf t) (from_list bs)

abbrev pub elements : Tree → List Tree
elements (leaf n) = []
elements (pair t bs) = to_list bs

abbrev pub tag : Tree → ℕ
tag (leaf n) = 0
tag (pair (leaf t) bs) = t
tag (pair (pair a b) bs) = 0

abbrev pub first_element : Tree → Option Tree
first_element (pair t (pair b bs)) = some b
first_element _ = none

abbrev pub from_bytes : Comp → Tree
from_bytes [] = leaf 0
from_bytes (x ∷ c) = pair (leaf x) (from_bytes c)

abbrev pub to_bytes : Tree → Comp
to_bytes (pair (leaf x) c) = x ∷ to_bytes c
to_bytes _ = []

pub to_bytes-from_bytes : (c : Comp) → to_bytes (from_bytes c) ≡ c
to_bytes-from_bytes [] = refl
to_bytes-from_bytes (x ∷ c) = ap (◌∷◌ x) (to_bytes-from_bytes c)

-- A block in a component: its nodes in postfix order, each leaf one above its number.
abbrev pub postfix : Tree → Comp
postfix (leaf n) = suc n ∷ []
postfix (pair a b) = postfix a ++ (postfix b ++ 0 ∷ [])

abbrev pub run : Comp → List Tree → List Tree
run [] stack = stack
run (suc n ∷ rest) stack = run rest (leaf n ∷ stack)
run (zero ∷ rest) (b ∷ a ∷ stack) = run rest (pair a b ∷ stack)
run (zero ∷ rest) _ = []

pub run-postfix :
    (t : Tree) (rest : Comp) (stack : List Tree)
    → run (postfix t ++ rest) stack ≡ run rest (t ∷ stack)
run-postfix (leaf n) rest stack = refl
run-postfix (pair a b) rest stack =
    ap (λ c. run c stack) (append_assoc (postfix a) (postfix b ++ 0 ∷ []) rest)
    ∙ run-postfix a ((postfix b ++ 0 ∷ []) ++ rest) stack
    ∙ ap (λ c. run c (a ∷ stack)) (append_assoc (postfix b) (0 ∷ []) rest)
    ∙ run-postfix b (0 ∷ rest) (a ∷ stack)

abbrev pub top : List Tree → Option Tree
top [] = none
top (t ∷ ts) = some t

abbrev pub component_of_block : Tree → Comp
component_of_block t = 2 ∷ postfix t

abbrev pub component_from_value : Comp → Option Tree
component_from_value [] = none
component_from_value (x ∷ c) = top (run c [])

pub component_from_value-component_of_block :
    (t : Tree) → component_from_value (component_of_block t) ≡ some t
component_from_value-component_of_block t =
    ap (λ c. top (run c [])) (sym (append-nil (postfix t))) ∙ ap top (run-postfix t [] [])

abbrev pub read_number : Tree → Option ℕ
read_number (pair t (leaf n)) = some n
read_number _ = none

abbrev pub from_name : List Comp → Tree
from_name [] = leaf 0
from_name (c ∷ n) = pair (from_bytes c) (from_name n)

abbrev pub to_name : Tree → List Comp
to_name (leaf n) = []
to_name (pair c n) = to_bytes c ∷ to_name n

pub to_name-from_name : (n : List Comp) → to_name (from_name n) ≡ n
to_name-from_name [] = refl
to_name-from_name (c ∷ n) = cc (to_bytes-from_bytes c, to_name-from_name n)

abbrev pub ToyData : Type 0
ToyData = Packet Comp Tree ℕ

abbrev pub signature_tree : Option ℕ → Tree
signature_tree none = leaf 0
signature_tree (some n) = leaf (suc n)

abbrev pub tree_signature : Tree → Option ℕ
tree_signature (leaf (suc n)) = some n
tree_signature _ = none

abbrev pub packet_tree : ToyData → Tree
packet_tree d = pair (leaf 6) (
    pair (from_name d.name) (
      pair (leaf d.content_type)
        (pair (leaf d.freshness_period) (pair d.content (signature_tree d.signature)))))

abbrev pub tree_packet : Tree → Option ToyData
tree_packet (pair (leaf t) (pair n (pair (leaf ct) (pair (leaf f) (pair c s))))) = some (record {
  name = to_name n;
  content_type = ct;
  freshness_period = f;
  content = c;
  signature = tree_signature s;
})
tree_packet _ = none

pub signature-tree : (s : Option ℕ) → tree_signature (signature_tree s) ≡ s
signature-tree none = refl
signature-tree (some n) = refl

pub tree_packet-packet_tree : (d : ToyData) → tree_packet (packet_tree d) ≡ some d
tree_packet-packet_tree d = cc (to_name-from_name d.name, signature-tree d.signature)

instance abbrev pub toy : Ndn
toy = record {
  Component = Comp;
  Block = Tree;
  Signature = ℕ;
  component_eq = blob_eq;
  component_eq_iff = blob_eq_iff;
  component_lt = blob_lt;
  component_lt_irrefl = blob_lt_irrefl;
  component_lt_trans = blob_lt_trans;
  component_lt_total = blob_lt_total;
  is_version = is_version;
  of_version = λ n. 1 ∷ n ∷ [];
  is_version-of_version = λ n. refl;
  of_string = λ s. 0 ∷ codes s;
  is_version-of_string = λ s. refl;
  empty_component = [];
  is_empty = is_empty;
  is_empty-empty_component = refl;
  is_empty_version = is_empty_version;
  get = at;
  get-append = at-append;
  get_back = from_back;
  get_back-append = from_back-append;
  get_prefix = λ n k. take k n;
  get_prefix-take = λ n k. refl;
  get_sub_name = λ n i k. take k (drop i n);
  get_sub_name-take = λ n i k. refl;
  get_sub_name_from = λ n i. drop i n;
  get_sub_name_from-drop = λ n i. refl;
  component_bytes = bytes;
  component_bytes_pos = λ c. omega arith;
  read_component = read;
  read_component-bytes = read-bytes;
  name_value = value;
  name_value-nil = refl;
  name_value-cons = λ c n. refl;
  name_lt = λ a b. blob_lt (value a) (value b);
  name_lt-blob_lt = λ a b. refl;
  empty_block = leaf 0;
  block_eq = tree_eq;
  block_eq_iff = tree_eq_iff;
  block_type = tag;
  tlv_content = 21;
  tlv_content-value = refl;
  nest = nest;
  elements = elements;
  elements-nest = λ t bs. to_list-from_list bs;
  block_type-nest = λ t bs. refl;
  block_from_value = first_element;
  block_from_value-nest = λ t b. refl;
  component_of_block = component_of_block;
  component_from_value = component_from_value;
  component_from_value-component_of_block = component_from_value-component_of_block;
  name_block = from_name;
  block_name = λ b. some (to_name b);
  block_name-name_block = λ n. ap some (to_name-from_name n);
  data_block = packet_tree;
  block_data = tree_packet;
  block_data-data_block = tree_packet-packet_tree;
  block_type-data_block = λ d. omega arith;
  link_content = λ ns. nest 21 [];
  link_delegations = λ b. some [];
  string_block = λ t s. pair (leaf t) (from_bytes (codes s));
  block_string = λ b. String.[];
  number_block = λ t n. pair (leaf t) (leaf n);
  block_type-number_block = λ t n. refl;
  read_number = read_number;
  read_number-number_block = λ t n h. refl;
  sign = λ c d. 0;
  content_type_blob = 0;
  content_type_link = 1;
  content_type_key = 2;
  content_type_nack = 3;
  blob-lt-link = omega arith;
  link-lt-key = omega arith;
  key-lt-nack = omega arith;
  nack-lt-1085 = omega arith;
}

-- One above every id in use.
abbrev pub above : List ℕ → ℕ
above [] = 1
above (i ∷ is) = i + above is

pub above_pos : (is : List ℕ) → 0 < above is
above_pos [] = omega arith
above_pos (i ∷ is) = omega (arith, above_pos is)

pub above_max : (k : ℕ) (is : List ℕ) → All (λ i. i < k + above is) is
above_max k [] = tt
above_max k (i ∷ is) = (
  omega (arith, above_pos is),
  All-map _ _ is (λ j (h : j < (k + i) + above is). omega arith) (above_max (k + i) is),
)

pub above-fresh : (is : List ℕ) → All (λ i. i ≢ above is) is
above-fresh is = All-map _ _ is (λ j (h : j < 0 + above is). omega arith) (above_max 0 is)

instance abbrev pub toy_sqlite : Sqlite
toy_sqlite = record { new_rowid = above; new_rowid_pos = above_pos; new_rowid_fresh = above-fresh }
