-- ===== src/Module/Sd/Laws.antt =====
-- What SdMemoryProvider relies on of the C library with a working card, and of cJSON.
use esp32cam.Base.{
  ℕ, ◌≡◌, ◌≤◌, List, [], ◌∷◌, ◌++◌, Bool, true, Option, none, some, if◌then◌else◌, length, take,
  ◌^◌, ◌<◌,
}
use esp32cam.Module.Description.{same_text}
use esp32cam.Module.Sd.{Card, Json, c_str}

-- The content of a file that may be missing.
abbrev pub content : Option (List ℕ) → List ℕ
content none = []
content (some bytes) = bytes

-- A card that works, with `file` for what stands in the file: to open for appending creates the
-- file and keeps what is there, to open for writing empties it, reading gives the first bytes and
-- changes nothing, writing at the start of an emptied file leaves what was written, and `new`
-- has room for a file of at most 4096 bytes and a null.
pub record IsWorking (S : Type 0) (card : Card S) (file : S → Option (List ℕ)) : Type 0 where
  pub append_lem :
      (s : S) → (t : S) × (card.open_append s ≡ (true, t)) × (file t ≡ some (content (file s)))
  pub open_read_lem :
      (s : S) (bytes : List ℕ)
      → file s ≡ some bytes
      → (t : S) × (card.open_read s ≡ (true, t)) × (file t ≡ some bytes)
  pub open_write_lem : (s : S) → (t : S) × (card.open_write s ≡ (true, t)) × (file t ≡ some [])
  pub size_lem : (s : S) (bytes : List ℕ) → file s ≡ some bytes → card.file_size s ≡ length bytes
  pub read_lem :
      (s : S) (bytes : List ℕ) (n : ℕ) → file s ≡ some bytes → card.read n s ≡ take n bytes
  pub write_lem :
      (s : S) (bytes : List ℕ) → file s ≡ some [] → file (card.write bytes s) ≡ some bytes
  pub allocates_lem : (s : S) (n : ℕ) → n ≤ 4097 → card.allocates n s ≡ true

-- The children of an object, in order, as pairs of a name and a value: the first with a name.
module _ {J : Type 0} where
  unfoldable pub lookup : List (List ℕ × J) → List ℕ → Option J
  lookup [] name = none
  lookup ((n, j) ∷ items) name =
      let rest = lookup items name in if same_text n name then some j else rest

  -- Without the first child whose name is alike.
  unfoldable pub remove_item :
      (List ℕ → List ℕ → Bool) → List (List ℕ × J) → List ℕ → List (List ℕ × J)
  remove_item alike [] name = []
  remove_item alike ((n, j) ∷ items) name =
      let rest = remove_item alike items name in if alike n name then items else (n, j) ∷ rest

-- cJSON, with `items` for the children of an object and `alike` for names that differ in upper and
-- lower case at most: a child is found by its exact name and deleted by a name that is alike, a new
-- child comes last, what is printed has no null in it and parses to the same value, and a 32-bit
-- number is kept.
pub record IsJson (J D : Type 0) (json : Json J D) (items : J → List (List ℕ × J))
    (alike : List ℕ → List ℕ → Bool) : Type 0 where
  pub alike_of_same : (a b : List ℕ) → same_text a b ≡ true → alike a b ≡ true
  pub alike_sym : (a b : List ℕ) → alike a b ≡ alike b a
  pub alike_trans : (a b c : List ℕ) → alike a b ≡ true → alike b c ≡ true → alike a c ≡ true
  pub create_object_lem : json.is_object json.create_object ≡ true
  pub items_create : items json.create_object ≡ []
  pub get_lem : (j : J) (name : List ℕ) → json.get_object_item j name ≡ lookup (items j) name
  pub delete_is_object :
      (j : J) (name : List ℕ) → json.is_object (json.delete_item j name) ≡ json.is_object j
  pub items_delete :
      (j : J) (name : List ℕ) → items (json.delete_item j name) ≡ remove_item alike (items j) name
  pub add_number_lem :
      (j : J) (name : List ℕ) (n : D)
      → json.is_object j ≡ true
      → (entry : J) × (items (json.add_number j name n) ≡ items j ++ ((name, entry) ∷ []))
        × (json.is_number entry ≡ true)
        × (json.number_value entry ≡ n)
        × (json.is_object (json.add_number j name n) ≡ true)
  pub add_string_lem :
      (j : J) (name text : List ℕ)
      → json.is_object j ≡ true
      → (entry : J) × (items (json.add_string j name text) ≡ items j ++ ((name, entry) ∷ []))
        × (json.is_string entry ≡ true)
        × (json.string_text entry ≡ text)
        × (json.is_object (json.add_string j name text) ≡ true)
  pub print_lem : (j : J) → json.is_object j ≡ true → json.parse (json.print j) ≡ some j
  pub print_no_null : (j : J) → c_str (json.print j) ≡ json.print j
  pub int32_lem : (n : ℕ) → n < 2 ^ 32 → json.to_int32 (json.from_int32 n) ≡ n
