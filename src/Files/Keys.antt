-- ===== src/Files/Keys.antt =====
-- Object keys: each is under the prefix that is checked when the upload is completed.
use nest_js_ecomm_rd.Base.{
  ℕ, String, ◌≡◌, ◌≢◌, sym, ap, ◌∙◌, true, false, Option, some, arith, inl, inr, truthy,
  Option-cases,
}
use nest_js_ecomm_rd.Errors.{ok}
use nest_js_ecomm_rd.Files.Service.{
  is_avatar, avatar_prefix, image_prefix, file_name, build_object_key,
  assert_avatar_key_belongs_to_owner, assert_product_key_matches_target,
}
use text.Mathlib.Text.{starts_with}
use text.Mathlib.TextPositions.{starts_with-append}
use text.Mathlib.TextEquality.{starts_with_iff}
use Prim.Native.String.{◌++◌ as concat, ◌∷◌}
use Prim.Native.String.append
use Prim.Native.Char.{code}

pub build_object_key-avatar :
    (uuid kind user_id content_type : String) (product_id : Option String) (key : String)
    → is_avatar kind ≡ true
    → build_object_key uuid kind user_id content_type product_id ≡ ok key
    → assert_avatar_key_belongs_to_owner key user_id ≡ ok tt
unfolding build_object_key assert_avatar_key_belongs_to_owner
build_object_key-avatar uuid kind user_id content_type product_id key a h =
    let made : concat (avatar_prefix user_id) (file_name uuid content_type) ≡ key = ground arith in
    let fits = starts_with-append (avatar_prefix user_id) (file_name uuid content_type) in
    ground (arith, made, fits)

pub build_object_key-image :
    (uuid kind user_id content_type : String) (product_id : Option String) (key : String)
    → is_avatar kind ≡ false
    → build_object_key uuid kind user_id content_type product_id ≡ ok key
    → (id : String) × (truthy product_id ≡ some id)
      × (assert_product_key_matches_target key id ≡ ok tt)
unfolding build_object_key assert_product_key_matches_target
build_object_key-image uuid kind user_id content_type product_id key a h =
    elim (Option-cases (truthy product_id)) [
      | inl missing ↦ absurd (ground arith)
      | inr (id, given) ↦
          let made : concat (image_prefix id) (file_name uuid content_type) ≡ key = ground arith in
          let fits = starts_with-append (image_prefix id) (file_name uuid content_type) in
          (id, given, ground (arith, made, fits))
    ]

abbrev first : String → ℕ
first String.[] = 0
first (String.◌∷◌ c s) = code c

-- The first letter of a key.
users_first :
    (x rest : String) → concat (concat "users/" x) rest ≡ "u" ∷ concat (concat "sers/" x) rest
users_first x rest =
    ap (λ k. concat k rest) (append.cons "u" "sers/" x) ∙ append.cons "u" (concat "sers/" x) rest

products_first :
    (x rest : String) → concat (concat "products/" x) rest ≡ "p" ∷ concat (concat "roducts/" x) rest
products_first x rest =
    ap (λ k. concat k rest) (append.cons "p" "roducts/" x)
    ∙ append.cons "p" (concat "roducts/" x) rest

prefixes_apart :
    (user_id product_id a b : String)
    → concat (image_prefix product_id) a ≢ concat (avatar_prefix user_id) b
prefixes_apart user_id product_id a b e =
    let heads =
      sym (products_first (concat product_id "/images/") a)
      ∙ e
      ∙ users_first (concat user_id "/avatars/") b in
    absurd (let letters : 112 ≡ 117 = ap first heads in omega arith)

-- A key that was made for an avatar is refused for every product.
build_object_key-apart :
    (uuid kind user_id content_type : String) (product_id : Option String) (key target : String)
    → is_avatar kind ≡ true
    → build_object_key uuid kind user_id content_type product_id ≡ ok key
    → assert_product_key_matches_target key target ≢ ok tt
unfolding build_object_key assert_product_key_matches_target
build_object_key-apart uuid kind user_id content_type product_id key target a h passes =
    let made : concat (avatar_prefix user_id) (file_name uuid content_type) ≡ key = ground arith in
    let fits : starts_with key (image_prefix target) ≡ true = ground arith in
    let (rest, whole) = (starts_with_iff key (image_prefix target)).0 fits in
    prefixes_apart user_id target rest (file_name uuid content_type) (whole ∙ sym made)
