-- ===== src/Http/Query/Laws.antt =====
-- The query strings of the HTTP sessions: their form, and that they can be read back.
use mexc_cpp_api.Base.{
  ℕ, ◌≡◌, refl, sym, ap, ◌∙◌, [], ◌∷◌, ◌++◌, true, false, is_empty, drop_last, All, ◌==◌,
  append_assoc, append-nil,
}
use mexc_cpp_api.Base.Text.{Text}
use mexc_cpp_api.Base.StringMap.{StringMap}
use mexc_cpp_api.Http.Query.{append_parameters, create_query_str}

-- One parameter, `key=value`.
abbrev pub pair_text : Text × Text → Text
pair_text (key, value) = key ++ (b'=' ∷ value)

-- The parameters with `&` between them.
abbrev pub joined : StringMap Text → Text
joined [] = []
joined (p ∷ []) = pair_text p
joined (p ∷ q ∷ ps) = pair_text p ++ (b'&' ∷ joined (q ∷ ps))

abbrev terminated : StringMap Text → Text
terminated [] = []
terminated (p ∷ ps) = pair_text p ++ (b'&' ∷ terminated ps)

append_parameters-eq :
    (s : Text) (ps : StringMap Text) → append_parameters s ps ≡ s ++ terminated ps
unfolding append_parameters
append_parameters-eq s [] = sym (append-nil s)
append_parameters-eq s ((k, v) ∷ ps) = append_parameters-eq _ ps ∙ simp append_assoc

drop_last-append : (s : Text) (c : ℕ) (t : Text) → drop_last (s ++ (c ∷ t)) ≡ s ++ drop_last (c ∷ t)
drop_last-append [] c t = refl
drop_last-append (a ∷ []) c t = refl
drop_last-append (a ∷ b ∷ s) c t = ap (◌∷◌ a) (drop_last-append (b ∷ s) c t)

is_empty-append : (s : Text) (c : ℕ) (t : Text) → is_empty (s ++ (c ∷ t)) ≡ false
is_empty-append [] c t = refl
is_empty-append (a ∷ s) c t = refl

drop_last-terminated :
    (p : Text × Text) (ps : StringMap Text) → drop_last (terminated (p ∷ ps)) ≡ joined (p ∷ ps)
drop_last-terminated p [] = drop_last-append (pair_text p) b'&' [] ∙ append-nil (pair_text p)
drop_last-terminated p (q ∷ qs) =
    drop_last-append (pair_text p) b'&' (terminated (q ∷ qs))
    ∙ ap (◌++◌ (pair_text p)) (
        drop_last-append (b'&' ∷ pair_text q) b'&' (terminated qs)
        ∙ ap (◌∷◌ b'&')
            (sym (drop_last-append (pair_text q) b'&' (terminated qs)) ∙ drop_last-terminated q qs))

-- The query string is the parameters in the order of their keys, each as `key=value`, with `&` between
-- them; of no parameters it is empty.
pub create_query_str-eq-joined : (ps : StringMap Text) → create_query_str ps ≡ joined ps
unfolding create_query_str
create_query_str-eq-joined [] = refl
create_query_str-eq-joined (p ∷ ps) =
    rw (append_parameters-eq [] (p ∷ ps), is_empty-append (pair_text p) b'&' (terminated ps))
      (drop_last-terminated p ps)

-- A server that reads the query: up to `=` a key, then up to `&` a value.
mutual
  pub read_key : Text → Text → StringMap Text
  read_key key [] = (key, []) ∷ []
  read_key key (c ∷ t) = elim (c == b'=') [
    | true ↦ read_value key [] t
    | false ↦ read_key (key ++ (c ∷ [])) t
  ]

  pub read_value : Text → Text → Text → StringMap Text
  read_value key value [] = (key, value) ∷ []
  read_value key value (c ∷ t) = elim (c == b'&') [
    | true ↦ (key, value) ∷ read_key [] t
    | false ↦ read_value key (value ++ (c ∷ [])) t
  ]

-- A text without the character `c`.
abbrev pub Without : ℕ → Text → Type 0
Without c = All λ d. (d == c) ≡ false

abbrev pub IsPlain : Text × Text → Type 0
IsPlain (key, value) = Without b'=' key × Without b'&' value

read_key-append :
    (k key rest : Text)
    → Without b'=' key
    → read_key k (key ++ (b'=' ∷ rest)) ≡ read_value (k ++ key) [] rest
unfolding read_key read_value
read_key-append k [] rest w = rw append-nil
read_key-append k (c ∷ key) rest w =
    rw (w.0, read_key) (read_key-append (k ++ (c ∷ [])) key rest w.1 ∙ rw append_assoc)

read_value-end :
    (key v value : Text) → Without b'&' value → read_value key v value ≡ (key, v ++ value) ∷ []
unfolding read_key read_value
read_value-end key v [] w = rw append-nil
read_value-end key v (c ∷ value) w =
    rw (w.0, read_value) (read_value-end key (v ++ (c ∷ [])) value w.1 ∙ rw append_assoc)

read_value-append :
    (key v value rest : Text)
    → Without b'&' value
    → read_value key v (value ++ (b'&' ∷ rest)) ≡ (key, v ++ value) ∷ read_key [] rest
unfolding read_key read_value
read_value-append key v [] rest w = rw append-nil
read_value-append key v (c ∷ value) rest w =
    rw (w.0, read_value) (read_value-append key (v ++ (c ∷ [])) value rest w.1 ∙ rw append_assoc)

read_key-joined :
    (p : Text × Text) (ps : StringMap Text)
    → All IsPlain (p ∷ ps)
    → read_key [] (joined (p ∷ ps)) ≡ p ∷ ps
read_key-joined (k, v) [] w = read_key-append [] k v w.0.0 ∙ read_value-end k [] v w.0.1
read_key-joined (k, v) (q ∷ qs) w =
    ap (read_key []) (append_assoc k (b'=' ∷ v) (b'&' ∷ joined (q ∷ qs)))
    ∙ read_key-append [] k (v ++ (b'&' ∷ joined (q ∷ qs))) w.0.0
    ∙ read_value-append k [] v (joined (q ∷ qs)) w.0.1
    ∙ ap (◌∷◌ (k, v)) (read_key-joined q qs w.1)

-- If there are parameters, no key holds `=` and no value holds `&`, then the parameters can be read
-- back from the query string. (The code does not escape these characters.)
pub read_key-create_query_str :
    (p : Text × Text) (ps : StringMap Text)
    → All IsPlain (p ∷ ps)
    → read_key [] (create_query_str (p ∷ ps)) ≡ p ∷ ps
read_key-create_query_str p ps w =
    ap (read_key []) (create_query_str-eq-joined (p ∷ ps)) ∙ read_key-joined p ps w
