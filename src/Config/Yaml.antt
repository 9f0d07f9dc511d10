-- ===== src/Config/Yaml.antt =====
-- What serde hands to the derived `Deserialize` of the configuration: the tree that the YAML parser
-- reads, without tags, and the rules of the attributes on fields. How a scalar is read is the
-- parameter `Scalars`.
use http_dragonfly.Prelude.{
  ℕ, String, Bool, true, false, ◌&&◌, not, Option, none, some, List, [], ◌∷◌, ◌==◌, member,
  if◌then◌else◌,
}

mutual
  pub data Value (S : Type 0) : Type 0 where
    scalar : S → Value S
    sequence : Items S → Value S
    mapping : Entries S → Value S

  pub data Items (S : Type 0) : Type 0 where
    nil : Items S
    cons : Value S → Items S → Items S

  pub data Entries (S : Type 0) : Type 0 where
    end : Entries S
    entry : String → Value S → Entries S → Entries S

pub record Scalars (S : Type 0) : Type 0 where
  -- `deserialize_string`, `deserialize_u16`, `deserialize_bool`
  pub text : S → Option String
  pub u16 : S → Option ℕ
  pub boolean : S → Option Bool
  -- a scalar that `deserialize_option` takes for `None`
  pub is_null : S → Bool
  -- a scalar that is read as a sequence or mapping with nothing in it
  pub is_empty : S → Bool
  -- `humantime_serde`, in nanoseconds
  pub duration : S → Option ℕ

module _ {A B : Type 0} where
  infixl 5 ◌>>=◌ ◌>>◌
  unfoldable pub ◌>>=◌ : Option A → (A → Option B) → Option B
  none >>= next = none
  some a >>= next = next a

  abbrev pub ◌>>◌ : Option A → Option B → Option B
  first >> second = first >>= λ ignored. second

abbrev pub known_once : List String → List String → Bool
known_once fields [] = true
known_once fields (k ∷ ks) = member k fields && not (member k ks) && known_once fields ks

abbrev pub guard : Bool → Option (Unit {0})
guard true = some tt
guard false = none

module _ {S : Type 0} where
  abbrev pub find : String → Entries S → Option (Value S)
  find key end = none
  find key (entry k v es) = if k == key then some v else find key es

  abbrev pub keys : Entries S → List String
  keys end = []
  keys (entry k v es) = k ∷ keys es

  abbrev pub entries_of : Scalars S → Value S → Option (Entries S)
  entries_of read (scalar s) = if read.is_empty s then some end else none
  entries_of read (sequence vs) = none
  entries_of read (mapping es) = some es

  -- `deny_unknown_fields`; a field that is there twice is an error as well.
  abbrev pub fields_of : Scalars S → List String → Value S → Option (Entries S)
  fields_of read fields v = do es ← entries_of read v; guard (known_once fields (keys es)); some es

  module _ {A : Type 0} (decode : Value S → Option A) where
    -- A field without an attribute.
    abbrev pub required : String → Entries S → Option A
    required key es = find key es >>= decode

    abbrev pub or_default : A → Option (Value S) → Option A
    or_default default none = some default
    or_default default (some v) = decode v

    -- `#[serde(default)]`
    abbrev pub defaulted : A → String → Entries S → Option A
    defaulted default key es = or_default default (find key es)

    abbrev pub decode_all : Items S → Option (List A)
    decode_all nil = some []
    decode_all (cons v vs) = do a ← decode v; rest ← decode_all vs; some (a ∷ rest)

    module _ (read : Scalars S) where
      -- `Vec`
      abbrev pub list_of : Value S → Option (List A)
      list_of (scalar s) = if read.is_empty s then some [] else none
      list_of (sequence vs) = decode_all vs
      list_of (mapping es) = none

      abbrev pub present : Value S → Option (Option A)
      present v = do a ← decode v; some (some a)

      abbrev pub option_of : Value S → Option (Option A)
      option_of (scalar s) = if read.is_null s then some none else present (scalar s)
      option_of (sequence vs) = present (sequence vs)
      option_of (mapping es) = present (mapping es)

  -- A scalar that is read in one way.
  abbrev pub scalar_of : {A : Type 0} → (S → Option A) → Value S → Option A
  scalar_of reader (scalar s) = reader s
  scalar_of reader (sequence vs) = none
  scalar_of reader (mapping es) = none

-- A field of type `Option`: it may be left out.
abbrev pub optional :
    {S A : Type 0} → Scalars S → (Value S → Option A) → String → Entries S → Option (Option A)
optional read decode = defaulted (option_of decode read) none
