-- ===== src/FileServer/Paths.antt =====
-- Which file a request names.
use advcpp.Prelude.{
  ℕ, ◌≡◌, ◌≢◌, refl, sym, ap, ◌∙◌, inl, inr, subst, Option-cases, Bool, true, false, ◌||◌, some, [],
  ◌∷◌, ◌++◌, take, drop, take-append-drop, ◌==◌, Bool-cases, ==→eq, arith,
}
use advcpp.Arguments.{Text}
use advcpp.FileServer.{
  codes, same_text, before_space, has_dotdot, strip_slash, default_path, checked_path, parse_path,
}

abbrev pub has_space : Text → Bool
has_space [] = false
has_space (c ∷ cs) = c == b' ' || has_space cs

before_space-word :
    (word rest : Text) → has_space word ≡ false → before_space (word ++ b' ' ∷ rest) ≡ some word
unfolding before_space
before_space-word [] rest h = refl
before_space-word (c ∷ cs) rest h = ground (arith, before_space-word cs rest)

default_path-kept : (path : Text) → path ≢ [] → default_path path ≡ path
unfolding default_path
default_path-kept [] h = absurd (h refl)
default_path-kept (c ∷ cs) h = refl

-- A request for "/path" names the path itself, where that is not empty and has no space and no
-- "..", whatever follows it: also a path that begins with a slash again, which the server opens as
-- an absolute one.
pub parse_path-get :
    (path rest : Text)
    → path ≢ []
    → has_space path ≡ false
    → has_dotdot path ≡ false
    → parse_path (codes "GET /" ++ path ++ b' ' ∷ rest) ≡ path
unfolding parse_path
parse_path-get path rest some_path word safe =
    rw (before_space-word (b'/' ∷ path) rest word)
      (rw (default_path-kept path some_path) (rw safe refl))

same_text-eq : (a b : Text) → same_text a b ≡ true → a ≡ b
unfolding same_text
same_text-eq [] [] h = refl
same_text-eq [] (c ∷ cs) h = cc
same_text-eq (b ∷ bs) [] h = cc
same_text-eq (b ∷ bs) (c ∷ cs) h = ground (arith, same_text-eq bs cs)

request_splits :
    (request : Text)
    → same_text (take 4 request) (codes "GET ") ≡ true
    → request ≡ codes "GET " ++ drop 4 request
request_splits request get =
    sym (take-append-drop 4 request)
    ∙ ap (λ (t : Text). t ++ drop 4 request) (same_text-eq (take 4 request) (codes "GET ") get)

before_space-splits :
    (text word : Text)
    → before_space text ≡ some word
    → (rest : Text) × (text ≡ word ++ b' ' ∷ rest) × (has_space word ≡ false)
unfolding before_space
before_space-splits [] word h = cc
before_space-splits (c ∷ cs) word h = elim (Bool-cases (c == b' ')) [
  | inl e ↦
      let none_before : ◌≡◌ {A = Text} [] word = ground arith in
      subst (λ (t : Text). (rest : Text) × (c ∷ cs ≡ t ++ b' ' ∷ rest) × (has_space t ≡ false))
        (none_before) (cs, ap (λ (t : ℕ). t ∷ cs) (==→eq c b' ' e), refl)
  | inr e ↦ elim (Option-cases (before_space cs)) [
    | inl missing ↦ absurd (ground arith)
    | inr (found, p) ↦
        let (rest, splits, no_space) = before_space-splits cs found p in
        let named : c ∷ found ≡ word = ground arith in
        subst (λ (t : Text). (rest : Text) × (c ∷ cs ≡ t ++ b' ' ∷ rest) × (has_space t ≡ false))
          (named) (rest, ap (λ (t : Text). c ∷ t) splits, ground arith)
  ]
]

-- A file name that a request is given comes from a request for a word, and has no "..".
pub record IsGet (request path : Text) : Type 0 where
  pub target : Text
  pub rest : Text
  pub splits : request ≡ codes "GET " ++ target ++ b' ' ∷ rest
  pub word : has_space target ≡ false
  pub named : path ≡ default_path (strip_slash target)
  pub safe : has_dotdot path ≡ false

-- Every path that is not empty comes from such a request.
parse_path-IsGet :
    (request path : Text) → path ≢ [] → parse_path request ≡ path → IsGet request path
unfolding parse_path
parse_path-IsGet request path h e = elim (Bool-cases (same_text (take 4 request) (codes "GET "))) [
  | inr other ↦ absurd (h (sym e ∙ rw other refl))
  | inl get ↦ elim (Option-cases (before_space (drop 4 request))) [
    | inl missing ↦ absurd (h (sym e ∙ rw (get, missing) refl))
    | inr (target, found) ↦
        let (rest, splits, word) = before_space-splits (drop 4 request) target found in
        let x : Text = default_path (strip_slash target) in
        let named : checked_path x ≡ path = sym (rw (get, found) refl) ∙ e in
        elim (Bool-cases (has_dotdot x)) [
          | inl climbs ↦ absurd (h (sym named ∙ rw climbs refl))
          | inr safe ↦
              let same : path ≡ x = sym named ∙ rw safe refl in
              record {
                target = target;
                rest = rest;
                splits = rw (← splits) (request_splits request get);
                word = word;
                named = same;
                safe = ap has_dotdot same ∙ safe;
              }
        ]
  ]
]
