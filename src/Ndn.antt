-- ===== src/Ndn.antt =====
-- What the program takes from ndn-cxx, as parameters: names are sequences of components, a packet
-- has the fields that the program reads and writes, and the rest (component and packet codecs,
-- component order, naming conventions, signatures) is a record of operations with the laws that
-- ndn-cxx documents.
use ndns.Prelude.{
  ℕ, suc, ◌^◌, ◌<◌, ◌≡◌, ◌≢◌, ◌↔◌, ◌⊎◌, Bool, true, false, Option, some, List, [], ◌∷◌, ◌++◌,
  String, length, take, drop, Blob, blob_lt,
}

-- ndn::Data: its name, meta information, content and signature.
pub record Packet (Component Block Signature : Type 0) : Type 0 where
  pub name : List Component
  pub content_type : ℕ
  pub freshness_period : ℕ
  pub content : Block
  pub signature : Option Signature

pub record Ndn : Type 1 where
  pub Component : Type 0
  pub Block : Type 0
  pub Signature : Type 0
  -- name::Component: equality, the order, the naming conventions, and text literals
  pub component_eq : Component → Component → Bool
  pub component_eq_iff : (a b : Component) → (component_eq a b ≡ true) ↔ (a ≡ b)
  pub component_lt : Component → Component → Bool
  pub component_lt_irrefl : (a : Component) → component_lt a a ≡ false
  pub component_lt_trans :
      (a b c : Component)
      → component_lt a b ≡ true
      → component_lt b c ≡ true
      → component_lt a c ≡ true
  pub component_lt_total :
      (a b : Component) → a ≢ b → (component_lt a b ≡ true) ⊎ (component_lt b a ≡ true)
  pub is_version : Component → Bool
  pub of_version : ℕ → Component
  pub is_version-of_version : (n : ℕ) → is_version (of_version n) ≡ true
  pub of_string : String → Component
  pub is_version-of_string : (s : String) → is_version (of_string s) ≡ false
  pub empty_component : Component
  pub is_empty : Component → Bool
  pub is_empty-empty_component : is_empty empty_component ≡ true
  pub is_empty_version : (c : Component) → is_version c ≡ true → is_empty c ≡ false
  -- Name::get with an index from the front, and with a negative one; the two cuts of a name
  pub get : List Component → ℕ → Component
  pub get-append :
      (n : List Component) (c : Component) (m : List Component) → get (n ++ c ∷ m) (length n) ≡ c
  pub get_back : List Component → ℕ → Component
  pub get_back-append :
      (n : List Component) (c : Component) (m : List Component)
      → get_back (n ++ c ∷ m) (suc (length m)) ≡ c
  pub get_prefix : List Component → ℕ → List Component
  pub get_prefix-take : (n : List Component) (k : ℕ) → get_prefix n k ≡ take k n
  pub get_sub_name : List Component → ℕ → ℕ → List Component
  pub get_sub_name-take : (n : List Component) (i k : ℕ) → get_sub_name n i k ≡ take k (drop i n)
  pub get_sub_name_from : List Component → ℕ → List Component
  pub get_sub_name_from-drop : (n : List Component) (i : ℕ) → get_sub_name_from n i ≡ drop i n
  -- the wire form of a component, and decoding one off the front of a buffer with its size
  pub component_bytes : Component → Blob
  pub component_bytes_pos : (c : Component) → 0 < length (component_bytes c)
  pub read_component : Blob → Option (Component × ℕ)
  pub read_component-bytes :
      (c : Component) (rest : Blob)
      → read_component (component_bytes c ++ rest) ≡ some (c, length (component_bytes c))
  -- Name::wireEncode().value(), and the canonical order of names
  pub name_value : List Component → Blob
  pub name_value-nil : name_value [] ≡ []
  pub name_value-cons :
      (c : Component) (n : List Component) → name_value (c ∷ n) ≡ component_bytes c ++ name_value n
  pub name_lt : List Component → List Component → Bool
  pub name_lt-blob_lt : (a b : List Component) → name_lt a b ≡ blob_lt (name_value a) (name_value b)
  -- Block: equality, the elements of a Content block, a name or a packet as a block
  pub empty_block : Block
  pub block_eq : Block → Block → Bool
  pub block_eq_iff : (a b : Block) → (block_eq a b ≡ true) ↔ (a ≡ b)
  pub block_type : Block → ℕ
  pub tlv_content : ℕ
  pub tlv_content-value : tlv_content ≡ 21
  pub nest : ℕ → List Block → Block
  pub elements : Block → List Block
  pub elements-nest : (t : ℕ) (bs : List Block) → elements (nest t bs) ≡ bs
  pub block_type-nest : (t : ℕ) (bs : List Block) → block_type (nest t bs) ≡ t
  pub block_from_value : Block → Option Block
  pub block_from_value-nest : (t : ℕ) (b : Block) → block_from_value (nest t (b ∷ [])) ≡ some b
  -- Name::append(GenericNameComponent, block), and Component::blockFromValue
  pub component_of_block : Block → Component
  pub component_from_value : Component → Option Block
  pub component_from_value-component_of_block :
      (b : Block) → component_from_value (component_of_block b) ≡ some b
  pub name_block : List Component → Block
  pub block_name : Block → Option (List Component)
  pub block_name-name_block : (n : List Component) → block_name (name_block n) ≡ some n
  pub data_block : Packet Component Block Signature → Block
  pub block_data : Block → Option (Packet Component Block Signature)
  pub block_data-data_block :
      (d : Packet Component Block Signature) → block_data (data_block d) ≡ some d
  pub block_type-data_block :
      (d : Packet Component Block Signature) → block_type (data_block d) ≢ tlv_content
  -- the content of a Link, and Link(block).getDelegationList()
  pub link_content : List (List Component) → Block
  pub link_delegations : Block → Option (List (List Component))
  pub string_block : ℕ → String → Block
  -- the value of a block as text
  pub block_string : Block → String
  pub number_block : ℕ → ℕ → Block
  pub block_type-number_block : (t n : ℕ) → block_type (number_block t n) ≡ t
  -- readNonNegativeInteger, none where it throws
  pub read_number : Block → Option ℕ
  pub read_number-number_block : (t n : ℕ) → n < 2 ^ 64 → read_number (number_block t n) ≡ some n
  -- KeyChain::sign, with the default identity or by the named certificate
  pub sign : Option (List Component) → Packet Component Block Signature → Signature
  -- the content types of tlv.hpp
  pub content_type_blob : ℕ
  pub content_type_link : ℕ
  pub content_type_key : ℕ
  pub content_type_nack : ℕ
  pub blob-lt-link : content_type_blob < content_type_link
  pub link-lt-key : content_type_link < content_type_key
  pub key-lt-nack : content_type_key < content_type_nack
  pub nack-lt-1085 : content_type_nack < 1085
