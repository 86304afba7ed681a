-- ===== src/Module/Tests/Notation.antt =====
-- A small JSON in place of cJSON, and a card that is its file, for the tests.
use esp32cam.Base.{
  ℕ, zero, suc, ◌==◌, ◌≡◌, ◌∙◌, ap, ap₂, subst, refl, arith, List, [], ◌∷◌, ◌++◌, Bool, true, false,
  ◌&&◌, Option, none, some, if◌then◌else◌, length, take, ==_iff, Bool-cases, inl, inr,
}
use esp32cam.Module.Description.{same_text}
use esp32cam.Module.Sd.{Card, Json, c_str}
use esp32cam.Module.Sd.Laws.{content, IsWorking, lookup, remove_item, IsJson}

abbrev pub CardFile : Type 0
CardFile = Option (List ℕ)

abbrev pub card : Card CardFile
card = record {
  open_append = λ s. (true, some (content s));
  open_read = λ s. (elim s [ none ↦ false | some b ↦ true ], s);
  open_write = λ s. (true, some []);
  file_size = λ s. length (content s);
  allocates = λ n s. true;
  read = λ n s. take n (content s);
  write = λ b s. some b;
  sd_fat_init = λ s. s;
  sd_fat_deinit = λ s. s;
}

pub card_works : IsWorking CardFile card (λ s. s)
card_works = record {
  append_lem = λ s. (some (content s), refl, refl);
  open_read_lem = λ s b e. (s, ground (arith, e), e);
  open_write_lem = λ s. (some [], refl, refl);
  size_lem = λ s b e. ap (λ (o : CardFile). length (content o)) e;
  read_lem = λ s b n e. ap (λ (o : CardFile). take n (content o)) e;
  write_lem = λ s b e. refl;
  allocates_lem = λ s n h. refl;
}

pub data Atom : Type 0 where
  text : List ℕ → Atom
  number : ℕ → Atom

pub data Doc : Type 0 where
  atom : Atom → Doc
  object : List (List ℕ × Atom) → Doc

abbrev wrap : List (List ℕ × Atom) → List (List ℕ × Doc)
wrap [] = []
wrap ((n, a) ∷ l) = (n, atom a) ∷ wrap l

abbrev pub children : Doc → List (List ℕ × Doc)
children (atom a) = []
children (object l) = wrap l

abbrev delete : List (List ℕ × Atom) → List ℕ → List (List ℕ × Atom)
delete [] name = []
delete ((n, a) ∷ l) name = let rest = delete l name in if same_text n name then l else (n, a) ∷ rest

-- The text of strings: each character raised by two, and 1 behind each string.
abbrev encode : List ℕ → List ℕ → List ℕ
encode [] t = suc zero ∷ t
encode (c ∷ s) t = suc (suc c) ∷ encode s t

abbrev print_pairs : List (List ℕ × Atom) → List ℕ
print_pairs [] = []
print_pairs ((n, text s) ∷ l) = encode n (encode (1 ∷ s) (print_pairs l))
print_pairs ((n, number k) ∷ l) = encode n (encode (0 ∷ k ∷ []) (print_pairs l))

abbrev push_char : ℕ → List (List ℕ) → List (List ℕ)
push_char c [] = []
push_char c (s ∷ l) = (c ∷ s) ∷ l

abbrev decode : List ℕ → List (List ℕ)
decode [] = []
decode (zero ∷ t) = []
decode (suc zero ∷ t) = [] ∷ decode t
decode (suc (suc c) ∷ t) = push_char c (decode t)

abbrev atom_of : List ℕ → Atom
atom_of [] = text []
atom_of (zero ∷ []) = number 0
atom_of (zero ∷ k ∷ s) = number k
atom_of (suc c ∷ s) = text s

abbrev pairs : List (List ℕ) → List (List ℕ × Atom)
pairs [] = []
pairs (n ∷ []) = []
pairs (n ∷ s ∷ l) = (n, atom_of s) ∷ pairs l

abbrev print : Doc → List ℕ
print (atom a) = 34 ∷ []
print (object l) = 123 ∷ print_pairs l

abbrev parse_doc : List ℕ → Option Doc
parse_doc [] = none
parse_doc (c ∷ t) = some (object (pairs (decode t)))

abbrev pub json : Json Doc ℕ
json = record {
  parse = parse_doc;
  print = print;
  is_object = λ j. elim j [ atom a ↦ false | object l ↦ true ];
  is_number =
      λ j. elim j [ object l ↦ false | atom a ↦ elim a [ text s ↦ false | number k ↦ true ] ];
  is_string =
      λ j. elim j [ object l ↦ false | atom a ↦ elim a [ text s ↦ true | number k ↦ false ] ];
  number_value = λ j. elim j [ object l ↦ 0 | atom a ↦ elim a [ text s ↦ 0 | number k ↦ k ] ];
  string_text = λ j. elim j [ object l ↦ [] | atom a ↦ elim a [ text s ↦ s | number k ↦ [] ] ];
  create_object = object [];
  get_object_item = λ j name. lookup (children j) name;
  delete_item = λ j name. elim j [ atom a ↦ atom a | object l ↦ object (delete l name) ];
  add_number =
      λ j name k. elim j [ atom a ↦ atom a | object l ↦ object (l ++ ((name, number k) ∷ [])) ];
  add_string =
      λ j name s. elim j [ atom a ↦ atom a | object l ↦ object (l ++ ((name, text s) ∷ [])) ];
  from_int32 = λ n. n;
  to_int32 = λ n. n;
}

decode-encode : (s t : List ℕ) → decode (encode s t) ≡ s ∷ decode t
decode-encode [] t = refl
decode-encode (c ∷ s) t = ap (push_char c) (decode-encode s t)

parse-print : (l : List (List ℕ × Atom)) → pairs (decode (print_pairs l)) ≡ l
parse-print [] = refl
parse-print ((n, text s) ∷ l) =
    let first = decode-encode n (encode (1 ∷ s) (print_pairs l)) in
    let second = decode-encode (1 ∷ s) (print_pairs l) in
    ap pairs (first ∙ ap (◌∷◌ n) second) ∙ ap (◌∷◌ (n, text s)) (parse-print l)
parse-print ((n, number k) ∷ l) =
    let first = decode-encode n (encode (0 ∷ k ∷ []) (print_pairs l)) in
    let second = decode-encode (0 ∷ k ∷ []) (print_pairs l) in
    ap pairs (first ∙ ap (◌∷◌ n) second) ∙ ap (◌∷◌ (n, number k)) (parse-print l)

c_str-encode : (s t : List ℕ) → c_str (encode s t) ≡ encode s (c_str t)
unfolding c_str
c_str-encode [] t = refl
c_str-encode (c ∷ s) t = ap (◌∷◌ (suc (suc c))) (c_str-encode s t)

c_str-print_pairs : (l : List (List ℕ × Atom)) → c_str (print_pairs l) ≡ print_pairs l
unfolding c_str
c_str-print_pairs [] = refl
c_str-print_pairs ((n, text s) ∷ l) =
    c_str-encode n (encode (1 ∷ s) (print_pairs l))
    ∙ ap (encode n) (c_str-encode (1 ∷ s) (print_pairs l))
    ∙ ap (λ (t : List ℕ). encode n (encode (1 ∷ s) t)) (c_str-print_pairs l)
c_str-print_pairs ((n, number k) ∷ l) =
    c_str-encode n (encode (0 ∷ k ∷ []) (print_pairs l))
    ∙ ap (encode n) (c_str-encode (0 ∷ k ∷ []) (print_pairs l))
    ∙ ap (λ (t : List ℕ). encode n (encode (0 ∷ k ∷ []) t)) (c_str-print_pairs l)

wrap-append :
    (l : List (List ℕ × Atom)) (n : List ℕ) (a : Atom)
    → wrap (l ++ ((n, a) ∷ [])) ≡ wrap l ++ ((n, atom a) ∷ [])
wrap-append [] n a = refl
wrap-append ((m, b) ∷ l) n a = ap (◌∷◌ (m, atom b)) (wrap-append l n a)

wrap-delete :
    (l : List (List ℕ × Atom)) (name : List ℕ)
    → wrap (delete l name) ≡ remove_item same_text (wrap l) name
unfolding remove_item
wrap-delete [] name = refl
wrap-delete ((n, a) ∷ l) name = elim (Bool-cases (same_text n name)) [
  | inl t ↦ ground (arith, t)
  | inr f ↦ ground (arith, f, wrap-delete l name)
]

same_text_sound : (a b : List ℕ) → same_text a b ≡ true → a ≡ b
same_text_sound [] [] h = refl
same_text_sound [] (y ∷ b) h = absurd (ground arith)
same_text_sound (x ∷ a) [] h = absurd (ground arith)
same_text_sound (x ∷ a) (y ∷ b) h =
    let (e, f) = split (x == y) (same_text a b) h in
    ap₂ (λ (u : ℕ) (v : List ℕ). u ∷ v) ((==_iff x y).0 e) (same_text_sound a b f)
  where
    split : (p q : Bool) → (p && q) ≡ true → (p ≡ true) × (q ≡ true)
    split true q h = (refl, h)
    split false q h = absurd (ground arith)

same_text-sym : (a b : List ℕ) → same_text a b ≡ same_text b a
same_text-sym [] [] = refl
same_text-sym [] (y ∷ b) = refl
same_text-sym (x ∷ a) [] = refl
same_text-sym (x ∷ a) (y ∷ b) = ground (arith, same_text-sym a b)

delete_is_object_lem :
    (j : Doc) (name : List ℕ) → json.is_object (json.delete_item j name) ≡ json.is_object j
delete_is_object_lem (atom a) name = refl
delete_is_object_lem (object l) name = refl

children-delete :
    (j : Doc) (name : List ℕ)
    → children (json.delete_item j name) ≡ remove_item same_text (children j) name
unfolding remove_item
children-delete (atom a) name = refl
children-delete (object l) name = wrap-delete l name

number_lem :
    (j : Doc) (name : List ℕ) (n : ℕ)
    → json.is_object j ≡ true
    → (entry : Doc) × (children (json.add_number j name n) ≡ children j ++ ((name, entry) ∷ []))
      × (json.is_number entry ≡ true)
      × (json.number_value entry ≡ n)
      × (json.is_object (json.add_number j name n) ≡ true)
number_lem (atom a) name n h = absurd (ground arith)
number_lem (object l) name n h = (atom (number n), wrap-append l name (number n), refl, refl, refl)

string_lem :
    (j : Doc) (name s : List ℕ)
    → json.is_object j ≡ true
    → (entry : Doc) × (children (json.add_string j name s) ≡ children j ++ ((name, entry) ∷ []))
      × (json.is_string entry ≡ true)
      × (json.string_text entry ≡ s)
      × (json.is_object (json.add_string j name s) ≡ true)
string_lem (atom a) name s h = absurd (ground arith)
string_lem (object l) name s h = (atom (text s), wrap-append l name (text s), refl, refl, refl)

json-parse-print : (j : Doc) → json.is_object j ≡ true → json.parse (json.print j) ≡ some j
json-parse-print (atom a) h = absurd (ground arith)
json-parse-print (object l) h = ap (λ (p : List (List ℕ × Atom)). some (object p)) (parse-print l)

c_str-print : (j : Doc) → c_str (json.print j) ≡ json.print j
unfolding c_str
c_str-print (atom a) = refl
c_str-print (object l) = ap (◌∷◌ 123) (c_str-print_pairs l)

pub json_laws : IsJson Doc ℕ json children same_text
unfolding lookup
json_laws = record {
  alike_of_same = λ a b h. h;
  alike_sym = same_text-sym;
  alike_trans = λ a b c h k. subst (λ t. same_text a t ≡ true) (same_text_sound b c k) h;
  create_object_lem = refl;
  items_create = refl;
  get_lem = λ j name. refl;
  delete_is_object = delete_is_object_lem;
  items_delete = children-delete;
  add_number_lem = number_lem;
  add_string_lem = string_lem;
  print_lem = json-parse-print;
  print_no_null = c_str-print;
  int32_lem = λ n h. refl;
}
