-- ===== src/Fs/Names/RoundTrip.antt =====
-- fs/fat32.c: a name that `make_short_name_checked` accepts is the one that the search looks for and
-- that the listing prints.
use mathlib.Core.List.{append_assoc, append-nil, map}
use minerva_os.Base.{
  ℕ, suc, ◌+◌, ◌≡◌, ◌<◌, inl, inr, refl, sym, ap, ◌∙◌, false, ◌==◌, List, [], ◌∷◌, ◌++◌, some,
  replicate, length, length-append, length-replicate, arith, All, Bool-cases, none-ne-some,
  some-injective,
}
use minerva_os.Fs.Names.{
  space, dot, upper_ascii, ext_loop, make_short_name, checked_rest, make_short_name_checked,
  copy_loop, short_name_to_string,
}
use minerva_os.Fs.Names.Short.{
  Fine, Base, Ext, field_of, checked_base-Base, checked_ext-Ext, copy_loop_lem, upper-solid,
  get_or-append,
}

length-map : (f : ℕ → ℕ) (xs : List ℕ) → length (map f xs) ≡ length xs
length-map f [] = refl
length-map f (x ∷ xs) = ap suc (length-map f xs)

map-append : (f : ℕ → ℕ) (xs ys : List ℕ) → map f (xs ++ ys) ≡ map f xs ++ map f ys
map-append f [] ys = refl
map-append f (x ∷ xs) ys = ap (λ l. f x ∷ l) (map-append f xs ys)

-- The eight characters of the base.
abbrev base_field : List ℕ → ℕ → List ℕ
base_field base pad = map upper_ascii base ++ replicate pad space

length-base_field :
    (base : List ℕ) (pad : ℕ) → length base + pad ≡ 8 → length (base_field base pad) ≡ 8
length-base_field base pad e =
    length-append (map upper_ascii base) (replicate pad space)
    ∙ omega (arith, length-map upper_ascii base, length-replicate pad space, e)

print-base :
    (base : List ℕ) (pad : ℕ) (tail : List ℕ)
    → length base + pad ≡ 8
    → All Fine base
    → copy_loop 8 0 (base_field base pad ++ tail) ≡ map upper_ascii base
print-base base pad tail e a = rw (append_assoc (map upper_ascii base) (replicate pad space) tail) (
    copy_loop_lem (map upper_ascii base) [] tail 8 pad 0 refl
      (omega (arith, length-map upper_ascii base, e)) (upper-solid base a))

print-plain :
    (base : List ℕ) (pad : ℕ)
    → length base + pad ≡ 8
    → All Fine base
    → short_name_to_string (base_field base pad ++ replicate 3 space) ≡ map upper_ascii base
unfolding short_name_to_string
print-plain base pad e a =
    let tail : List ℕ = replicate 3 space in
    let blank =
      get_or-append (base_field base pad) tail 8 space (sym (length-base_field base pad e)) in
    rw (print-base base pad tail e a, blank) (append-nil (map upper_ascii base))

print-ext :
    (base ext : List ℕ) (pad pad2 : ℕ)
    → length base + pad ≡ 8
    → length ext + pad2 ≡ 3
    → All Fine base
    → All Fine ext
    → 0 < length ext
    → short_name_to_string
        (base_field base pad ++ (map upper_ascii ext ++ (replicate pad2 space ++ [])))
      ≡ map upper_ascii base ++ dot ∷ map upper_ascii ext
unfolding short_name_to_string
print-ext base [] pad pad2 e f a b h = absurd (omega arith)
print-ext base (c ∷ ext) pad pad2 e f a b h =
    let tail = map upper_ascii (c ∷ ext) ++ (replicate pad2 space ++ []) in
    let at = sym (length-base_field base pad e) in
    let head = get_or-append (base_field base pad) tail 8 space at in
    let solid : (upper_ascii c == space) ≡ false = ground (arith, (upper-solid (c ∷ ext) b).0) in
    let second =
      copy_loop_lem (map upper_ascii (c ∷ ext)) (base_field base pad) [] 3 pad2 8 at
        (omega (arith, length-map upper_ascii ext, f)) (upper-solid (c ∷ ext) b) in
    rw (print-base base pad tail e a, head, solid, second) refl

-- The field that the search computes, and the name that the listing prints.
abbrev pub Agrees : List ℕ → List ℕ → Type 0
Agrees name out = (make_short_name name ≡ out) × (short_name_to_string out ≡ map upper_ascii name)

-- A name without a dot.
plain-Agrees :
    (name : List ℕ) (r : List ℕ × ℕ × List ℕ)
    → Base name [] (replicate 3 space) 0 8 r
    → r.0 ≡ []
    → Agrees name r.2
unfolding make_short_name ext_loop
plain-Agrees name r b e =
    let whole : r.2 ≡ base_field b.base b.pad ++ replicate 3 space =
      b.field
      ∙ sym (append_assoc (map upper_ascii b.base) (replicate b.pad space) (replicate 3 space)) in
    let same_name : name ≡ b.base = b.split ∙ ap (λ l. b.base ++ l) e ∙ append-nil b.base in
    (
      rw (make_short_name, b.same, e) refl,
      ap short_name_to_string whole
          ∙ print-plain b.base b.pad b.full b.fine
          ∙ ap (map upper_ascii) (sym same_name),
    )

-- A name with one.
dotted-Agrees :
    (name ext : List ℕ) (r : List ℕ × ℕ × List ℕ) (r2 : ℕ × List ℕ)
    (b : Base name [] (replicate 3 space) 0 8 r)
    → r.0 ≡ dot ∷ ext
    → r.2 ≡ field_of (base_field b.base b.pad) 3 []
    → Ext ext (base_field b.base b.pad) 0 3 r2
    → 0 < length ext
    → Agrees name r2.1
unfolding make_short_name
dotted-Agrees name ext r r2 b e whole x h =
    let q = base_field b.base b.pad in
    let named : map upper_ascii name ≡ map upper_ascii b.base ++ dot ∷ map upper_ascii ext =
      ap (map upper_ascii) (b.split ∙ ap (λ l. b.base ++ l) e)
      ∙ map-append upper_ascii b.base (dot ∷ ext) in
    let shown : r2.1 ≡ q ++ (map upper_ascii ext ++ (replicate x.pad space ++ [])) =
      x.field ∙ append_assoc q (map upper_ascii ext) (replicate x.pad space ++ []) in
    (
      rw (make_short_name, b.same, e, whole) x.same,
      ap short_name_to_string shown
          ∙ print-ext b.base ext b.pad x.pad b.full x.full b.fine x.fine h
          ∙ sym named,
    )

rest-Agrees :
    (name : List ℕ) (r : List ℕ × ℕ × List ℕ) (out : List ℕ)
    → Base name [] (replicate 3 space) 0 8 r
    → checked_rest r.0 r.2 ≡ some out
    → Agrees name out
unfolding checked_rest
rest-Agrees name r out b e = elim b.stop [
  | inl none_left ↦
      rw (some-injective _ _ (rw (checked_rest, none_left) at e)) at
        (plain-Agrees name r b none_left)
  | inr (ext, dotted) ↦
      let q = base_field b.base b.pad in
      let whole : r.2 ≡ field_of q 3 [] =
        b.field
        ∙ sym (append_assoc (map upper_ascii b.base) (replicate b.pad space) (replicate 3 space)) in
      elim (checked_ext-Ext ext q 0 3 (sym (length-base_field b.base b.pad b.full)) refl) [
        | inl failed ↦ absurd (none-ne-some _ (rw (checked_rest, dotted, whole, failed) at e))
        | inr (r2, done, x) ↦ elim (Bool-cases (r2.0 == 0)) [
          | inl z ↦ absurd (none-ne-some _ (rw (checked_rest, dotted, whole, done, z) at e))
          | inr nz ↦
              rw (some-injective _ _ (rw (checked_rest, dotted, whole, done, nz) at e)) at
                (dotted-Agrees name ext r r2 b dotted whole x (ground (arith, nz, x.len)))
        ]
      ]
]

-- When `make_short_name_checked` accepts a name, as `fs_create` asks of it, the field that it writes
-- is the one that `make_short_name` computes for the search of the same name, and
-- `short_name_to_string` prints it as the name in upper case.
pub make_short_name_checked-Agrees :
    (name out : List ℕ)
    → make_short_name_checked name ≡ some out
    → (make_short_name name ≡ out) × (short_name_to_string out ≡ map upper_ascii name)
unfolding make_short_name_checked
make_short_name_checked-Agrees [] out e = absurd (none-ne-some _ e)
make_short_name_checked-Agrees (c ∷ cs) out e =
    elim (checked_base-Base (c ∷ cs) [] (replicate 3 space) 0 8 refl refl) [
      | inl failed ↦ absurd (none-ne-some _ (rw (make_short_name_checked, failed) at e))
      | inr (r, done, b) ↦ elim (Bool-cases (r.1 == 0)) [
        | inl z ↦ absurd (none-ne-some _ (rw (make_short_name_checked, done, z) at e))
        | inr nz ↦ rest-Agrees (c ∷ cs) r out b (rw (make_short_name_checked, done, nz) at e)
      ]
    ]
