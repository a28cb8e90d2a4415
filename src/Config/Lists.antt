-- ===== src/Config/Lists.antt =====
-- The lists of addresses on the command line: `strings.Split`, and the `String` methods of
-- config/config.go.
use Prim.Native.Char.{Char, code, char, IsScalar}
use Prim.Native.String.{◌++◌ as ◌<>◌}
use text.Mathlib.TextLemmas.{nil-append, cons-append}
use committer.Prelude.{
  ℕ, ◌≡◌, refl, ap, sym, subst, ◌∙◌, Bool, true, false, not, ◌&&◌, String, List, [], ◌∷◌, ◌==◌,
  Bool-cases, inl, inr, arith, All, and-eq_true,
}
use committer.Config.{split, join, push_char}

abbrev comma : Char
comma = char 44 tt

eq-code : (c : Char) → (code c == 44) ≡ true → comma ≡ c
eq-code (char n p) h = same n (ground arith) p
  where
    same : (n : ℕ) → 44 ≡ n → (p : IsScalar n) → comma ≡ char n p
    same n e = subst (λ m. (q : IsScalar m) → comma ≡ char m q) e (λ q. refl)

join-push_char :
    (c : Char) (w : String) (ws : List String)
    → join (push_char c (w ∷ ws)) ≡ String.◌∷◌ c (join (w ∷ ws))
unfolding join push_char
join-push_char c w [] = refl
join-push_char c w (v ∷ ws) = cons-append c w ("," <> join (v ∷ ws))

-- A text is split into at least one piece.
split-cons : (s : String) → (w : String) × (ws : List String) × (split s ≡ w ∷ ws)
unfolding split push_char
split-cons String.[] = ("", [], refl)
split-cons (String.◌∷◌ c s) = elim (Bool-cases (code c == 44)) [
  | inl cut ↦ ("", split s, rw cut refl)
  | inr keep ↦ let (w, ws, is) = split-cons s in (String.◌∷◌ c w, ws, rw (keep, is) refl)
]

after_comma : (t : String) → ("" <> ("," <> t)) ≡ String.◌∷◌ comma t
after_comma t =
    nil-append ("," <> t) ∙ cons-append comma String.[] t ∙ ap (String.◌∷◌ comma) (nil-append t)

join-cons :
    (w : String) (vs : List String) (v : String) (ws : List String)
    → vs ≡ v ∷ ws
    → join (w ∷ vs) ≡ (w <> ("," <> join vs))
unfolding join
join-cons w vs v ws h = rw h refl

-- Joining the pieces of a text gives the text back.
join-split : (s : String) → join (split s) ≡ s
unfolding split join
join-split String.[] = refl
join-split (String.◌∷◌ c s) = elim (Bool-cases (code c == 44)) [
  | inl cut ↦
      let (w, ws, is) = split-cons s in
      rw cut (
        join-cons "" (split s) w ws is
        ∙ after_comma (join (split s))
        ∙ ap (λ t. String.◌∷◌ comma t) (join-split s)
        ∙ ap (λ d. String.◌∷◌ d s) (eq-code c cut))
  | inr keep ↦
      let (w, ws, is) = split-cons s in
      rw keep (
        ap (λ vs. join (push_char c vs)) is
        ∙ join-push_char c w ws
        ∙ ap (λ vs. String.◌∷◌ c (join vs)) (sym is)
        ∙ ap (String.◌∷◌ c) (join-split s))
]

-- A text without a comma.
abbrev pub is_plain : String → Bool
is_plain String.[] = true
is_plain (String.◌∷◌ c s) = not (code c == 44) && is_plain s

not-true : (b : Bool) → not b ≡ true → b ≡ false
not-true b h = ground arith

split-plain : (w : String) → is_plain w ≡ true → split w ≡ w ∷ []
unfolding split push_char
split-plain String.[] h = refl
split-plain (String.◌∷◌ c w) h =
    let (a, b) = and-eq_true (not (code c == 44)) (is_plain w) h in
    rw (not-true (code c == 44) a, split-plain w b) refl

split-append : (w t : String) → is_plain w ≡ true → split (w <> ("," <> t)) ≡ w ∷ split t
unfolding split push_char
split-append String.[] t h = ap split (after_comma t)
split-append (String.◌∷◌ c w) t h =
    let (a, b) = and-eq_true (not (code c == 44)) (is_plain w) h in
    ap split (cons-append c w ("," <> t)) ∙ rw (not-true (code c == 44) a, split-append w t b) refl

-- Splitting the joined pieces gives the pieces back; there is at least one piece, and none has a
-- comma.
split-join :
    (w : String) (ws : List String)
    → All (λ v. is_plain v ≡ true) (w ∷ ws)
    → split (join (w ∷ ws)) ≡ w ∷ ws
unfolding join
split-join w [] h = split-plain w h.0
split-join w (v ∷ ws) h = split-append w (join (v ∷ ws)) h.0 ∙ ap (w ∷◌) (split-join v ws h.1)
