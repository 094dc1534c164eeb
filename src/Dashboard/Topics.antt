-- ===== src/Dashboard/Topics.antt =====
-- The topics of an endpoint, as the dashboard shows them and as its form reads them.
use Prim.Native.Char.{Char, code}
use Prim.Native.String
use text.Mathlib.TextLemmas.{nil-append, cons-append, cons≢nil, append-ne-nil_of_right_ne-nil}
use hookman.Common.{
  ◌≡◌, ◌≢◌, refl, ap, ◌∙◌, inl, inr, String, Bool, true, false, List, [], ◌∷◌, map, ◌==◌, eqb,
  if◌then◌else◌, All, arith, Bool-cases, eq_iff,
}
use hookman.World.{Env, World}
use hookman.Dashboard.{
  is_space, trim_left, trim_right, trim_space, onto_first, split_commas, parse_topics,
  endpoint_from_form,
}
use hookman.Dashboard.Rendering.{join_topics}

abbrev pub has_comma : String → Bool
has_comma String.[] = false
has_comma (String.◌∷◌ c s) = if eqb (code c) b',' then true else has_comma s

abbrev pub starts_with_space : String → Bool
starts_with_space String.[] = false
starts_with_space (String.◌∷◌ c s) = is_space (code c)

abbrev pub ends_with_space : String → Bool
ends_with_space String.[] = false
ends_with_space (String.◌∷◌ c s) = if s == "" then is_space (code c) else ends_with_space s

-- A topic that the form can hold.
abbrev pub IsPlain : String → Type 0
IsPlain t =
    (t ≢ "") × (has_comma t ≡ false) × (starts_with_space t ≡ false) × (ends_with_space t ≡ false)

trim_left_same : (s : String) → starts_with_space s ≡ false → trim_left s ≡ s
unfolding trim_left
trim_left_same String.[] h = refl
trim_left_same (String.◌∷◌ c s) h = rw h refl

trim_right_same : (s : String) → ends_with_space s ≡ false → trim_right s ≡ s
unfolding trim_right
trim_right_same String.[] h = refl
trim_right_same (String.◌∷◌ c s) h = elim (Bool-cases (s == "")) [
  | inl e ↦
      let solid : is_space (code c) ≡ false = rw e at h in
      let rest : s ≡ "" = (eq_iff s "").0 e in rw solid (ap (String.◌∷◌ c) (rw rest refl))
  | inr e ↦ let same = trim_right_same s (rw e at h) in rw (same, e) (ground arith)
]

trim_space_same :
    (s : String) → starts_with_space s ≡ false → ends_with_space s ≡ false → trim_space s ≡ s
unfolding trim_space
trim_space_same s h k = rw (trim_left_same s h) (trim_right_same s k)

-- A text without a comma is one part, and up to its first comma a text is the first part.
split_commas_one : (t : String) → has_comma t ≡ false → split_commas t ≡ t ∷ []
unfolding split_commas
split_commas_one String.[] h = refl
split_commas_one (String.◌∷◌ c t) h = elim (Bool-cases (eqb (code c) b',')) [
  | inl e ↦ cc (rw e at h)
  | inr e ↦ rw e (rw (split_commas_one t (rw e at h)) refl)
]

split_commas-append :
    (t s : String)
    → has_comma t ≡ false
    → split_commas (String.◌++◌ t (String.◌∷◌ "," s)) ≡ t ∷ split_commas s
unfolding split_commas
split_commas-append String.[] s h = rw (nil-append (String.◌∷◌ "," s)) refl
split_commas-append (String.◌∷◌ c t) s h = elim (Bool-cases (eqb (code c) b',')) [
  | inl e ↦ cc (rw e at h)
  | inr e ↦
      rw (cons-append c t (String.◌∷◌ "," s)) (rw e (rw (split_commas-append t s (rw e at h)) refl))
]

-- A space in front of the first part is trimmed.
trim_space_indented : (s : String) → trim_space (String.◌∷◌ " " s) ≡ trim_space s
unfolding trim_space trim_left
trim_space_indented s = refl

map-onto_first :
    (xs : List String) → xs ≢ [] → map trim_space (onto_first " " xs) ≡ map trim_space xs
map-onto_first [] h = absurd (h refl)
map-onto_first (x ∷ xs) h = ap (λ y. y ∷ map trim_space xs) (trim_space_indented x)

split_commas_indented :
    (s : String) → split_commas (String.◌∷◌ " " s) ≡ onto_first " " (split_commas s)
unfolding split_commas
split_commas_indented s = refl

onto_first-ne-nil : (c : Char) (xs : List String) → onto_first c xs ≢ []
onto_first-ne-nil c [] h = cc
onto_first-ne-nil c (x ∷ xs) h = cc

split_commas-ne-nil : (s : String) → split_commas s ≢ []
unfolding split_commas
split_commas-ne-nil String.[] h = cc
split_commas-ne-nil (String.◌∷◌ c s) h = elim (Bool-cases (eqb (code c) b',')) [
  | inl e ↦ cc (rw e at h)
  | inr e ↦ onto_first-ne-nil c (split_commas s) (rw e at h)
]

parts-join_topics :
    (t : String) (ts : List String)
    → All IsPlain (t ∷ ts)
    → map trim_space (split_commas (join_topics (t ∷ ts))) ≡ t ∷ ts
unfolding join_topics
parts-join_topics t [] ((full, plain, start, end), rest) =
    rw (split_commas_one t plain) (ap (λ x. x ∷ []) (trim_space_same t start end))
parts-join_topics t (u ∷ ts) ((full, plain, start, end), rest) =
    let tail = join_topics (u ∷ ts) in
    rw (split_commas-append t (String.◌∷◌ " " tail) plain, split_commas_indented tail)
      (rw (map-onto_first (split_commas tail) (split_commas-ne-nil tail))
        (rw (parts-join_topics u ts rest, trim_space_same t start end) refl))

starts-append : (t s : String) → t ≢ "" → starts_with_space (String.◌++◌ t s) ≡ starts_with_space t
starts-append String.[] s h = absurd (h refl)
starts-append (String.◌∷◌ c t) s h = rw (cons-append c t s) refl

not_empty : (s : String) → s ≢ "" → (s == "") ≡ false
not_empty s h = elim (Bool-cases (s == "")) [ inl e ↦ absurd (h ((eq_iff s "").0 e)) | inr e ↦ e ]

ends-append : (t s : String) → s ≢ "" → ends_with_space (String.◌++◌ t s) ≡ ends_with_space s
ends-append String.[] s h = rw (nil-append s) refl
ends-append (String.◌∷◌ c t) s h =
    rw (cons-append c t s, not_empty (String.◌++◌ t s) (append-ne-nil_of_right_ne-nil t h))
      (ends-append t s h)

-- The joined topics neither start nor end with a space.
starts-join_topics :
    (t : String) (ts : List String)
    → All IsPlain (t ∷ ts)
    → starts_with_space (join_topics (t ∷ ts)) ≡ false
unfolding join_topics
starts-join_topics t [] ((full, plain, start, end), rest) = start
starts-join_topics t (u ∷ ts) ((full, plain, start, end), rest) = starts-append t _ full ∙ start

join_topics-ne-nil :
    (t : String) (ts : List String) → All IsPlain (t ∷ ts) → join_topics (t ∷ ts) ≢ ""
unfolding join_topics
join_topics-ne-nil t [] ((full, plain, start, end), rest) = full
join_topics-ne-nil t (u ∷ ts) ((full, plain, start, end), rest) =
    append-ne-nil_of_right_ne-nil t cons≢nil

ends-join_topics :
    (t : String) (ts : List String)
    → All IsPlain (t ∷ ts)
    → ends_with_space (join_topics (t ∷ ts)) ≡ false
unfolding join_topics
ends-join_topics t [] ((full, plain, start, end), rest) = end
ends-join_topics t (u ∷ ts) ((full, plain, start, end), rest) =
    let tail = join_topics (u ∷ ts) in
    ends-append t (String.◌∷◌ "," (String.◌∷◌ " " tail)) cons≢nil
    ∙ rw (not_empty (String.◌∷◌ " " tail) cons≢nil, not_empty tail (join_topics-ne-nil u ts rest))
        (ends-join_topics u ts rest)

-- The dashboard's form reads back what the dashboard shows: the topics of an endpoint, if they are
-- not empty, have no comma and neither start nor end with a space, come out of the text that
-- joinTopics makes of them, as the same list in the same order.
pub topics_come_back :
    (env : Env) (url description t : String) (ts : List String) (w : World)
    → All IsPlain (t ∷ ts)
    → (endpoint_from_form env
        (record { url = url; topics = join_topics (t ∷ ts); description = description })
        w).0.topics
      ≡ t ∷ ts
unfolding endpoint_from_form parse_topics
topics_come_back env url description t ts w h =
    rw
      (trim_space_same (join_topics (t ∷ ts)) (starts-join_topics t ts h) (ends-join_topics t ts h))
      (parts-join_topics t ts h)
