-- ===== src/Json.antt =====
-- JSON values as Python sees them after json.loads, and a TEXT column that holds JSON. The text
-- itself is left out: json.dumps and json.loads are the standard library's, and what the stores
-- rely on is that loads returns what dumps wrote.
use study_loop.Base.{
  ℕ, String, Bool, true, false, ◌&&◌, Option, none, some, ◌==◌, str_eq, if◌then◌else◌, ◌≡◌, refl,
  arith, eq_refl,
}

-- `num n` is every number equal to the natural n, and `lit` any other number by its repr.
-- Both texts of a comparison are written with sort_keys=True, so a dict is its sorted fields.
mutual
  pub data Json : Type 0 where
    null : Json
    bool : Bool → Json
    num : ℕ → Json
    lit : String → Json
    str : String → Json
    arr : Items → Json
    obj : Fields → Json

  pub data Items : Type 0 where
    nil : Items
    cons : Json → Items → Items

  pub data Fields : Type 0 where
    end : Fields
    field : String → Json → Fields → Fields

-- `dict.get(key)`: None, which is `null`, where the key is missing.
unfoldable pub dict_get : String → Fields → Json
dict_get k end = null
dict_get k (field j v fs) = if str_eq j k then v else dict_get k fs

abbrev pub bit : Bool → ℕ
bit true = 1
bit false = 0

-- `==` on the values of json.loads, where True == 1 and False == 0.
unfoldable mutual
  pub json_eq : Json → Json → Bool
  json_eq null null = true
  json_eq (bool a) (bool b) = bit a == bit b
  json_eq (bool a) (num n) = bit a == n
  json_eq (num m) (bool b) = m == bit b
  json_eq (num m) (num n) = m == n
  json_eq (lit s) (lit t) = str_eq s t
  json_eq (str s) (str t) = str_eq s t
  json_eq (arr xs) (arr ys) = items_eq xs ys
  json_eq (obj fs) (obj gs) = fields_eq fs gs
  json_eq _ _ = false

  pub items_eq : Items → Items → Bool
  items_eq nil nil = true
  items_eq (cons x xs) (cons y ys) = json_eq x y && items_eq xs ys
  items_eq _ _ = false

  pub fields_eq : Fields → Fields → Bool
  fields_eq end end = true
  fields_eq (field j x fs) (field k y gs) = str_eq j k && (json_eq x y && fields_eq fs gs)
  fields_eq _ _ = false

mutual
  unfolding json_eq items_eq fields_eq

  pub json_eq_refl : (j : Json) → json_eq j j ≡ true
  json_eq_refl null = refl
  json_eq_refl (bool true) = refl
  json_eq_refl (bool false) = refl
  json_eq_refl (num n) = ground arith
  json_eq_refl (lit s) = eq_refl s
  json_eq_refl (str s) = eq_refl s
  json_eq_refl (arr xs) = items_eq_refl xs
  json_eq_refl (obj fs) = fields_eq_refl fs

  pub items_eq_refl : (xs : Items) → items_eq xs xs ≡ true
  items_eq_refl nil = refl
  items_eq_refl (cons x xs) = ground (arith, json_eq_refl x, items_eq_refl xs)

  pub fields_eq_refl : (fs : Fields) → fields_eq fs fs ≡ true
  fields_eq_refl end = refl
  fields_eq_refl (field k v fs) = ground (arith, eq_refl k, json_eq_refl v, fields_eq_refl fs)

-- A TEXT column: a text that json.loads reads, the empty text, or any other, on which it raises.
pub data JsonText : Type 0 where
  holds : Json → JsonText
  blank : JsonText
  malformed : JsonText

-- `json.loads(text)`, with `none` for JSONDecodeError.
abbrev pub loads : JsonText → Option Json
loads (holds j) = some j
loads blank = none
loads malformed = none
