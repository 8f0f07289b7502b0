-- ===== src/Http/Request/KeyValues.antt =====
-- ParseKV on the text of a list of pairs.
use libcold.Base.{
  ℕ, zero, suc, ◌<◌, ◌≡◌, refl, ap, ◌∙◌, List, [], ◌∷◌, ◌++◌, false, none, some, arith, length,
  length-append, Every,
}
use libcold.Base.StdMap.{StdMap, assign}
use libcold.StringUtils.Split.{member}
use libcold.Http.Response.{set_all}
use libcold.Http.Request.{cut, kv_key, kv_value, parse_kv, parse_kv_loop}

pub cut-append :
    (d : ℕ) (front back : List ℕ)
    → member d front ≡ false
    → cut d (front ++ d ∷ back) ≡ some (front, back)
unfolding cut
cut-append d [] back h = ground arith
cut-append d (c ∷ front) back h = ground (arith, cut-append d front back)

pub cut-none : (d : ℕ) (s : List ℕ) → member d s ≡ false → cut d s ≡ none
unfolding cut
cut-none d [] h = refl
cut-none d (c ∷ s) h = ground (arith, cut-none d s)

module _ (k_delim kv_delim : ℕ) where
  -- The pairs as a client writes them: key=value&key=value.
  abbrev pub kv_text : List (List ℕ × List ℕ) → List ℕ
  kv_text [] = []
  kv_text ((key, value) ∷ []) = key ++ k_delim ∷ value
  kv_text ((key, value) ∷ next ∷ rest) =
      key ++ k_delim ∷ (value ++ kv_delim ∷ kv_text (next ∷ rest))

  -- The delimiters do not stand where they would be taken for the end of a key or of a value.
  abbrev pub IsWritable : List ℕ × List ℕ → Type 0
  IsWritable (key, value) = (member k_delim key ≡ false) × (member kv_delim value ≡ false)

  abbrev next : ℕ → List ℕ → StdMap (List ℕ) → StdMap (List ℕ)
  next k rest m = parse_kv_loop k k_delim kv_delim rest m

  parse_kv_loop-last :
      (k : ℕ) (key value : List ℕ) (m : StdMap (List ℕ))
      → IsWritable (key, value)
      → parse_kv_loop (suc k) k_delim kv_delim (key ++ k_delim ∷ value) m ≡ assign key value m
  unfolding parse_kv_loop
  parse_kv_loop-last k key value m h =
      ap (λ o. kv_key kv_delim (next k) o m) (cut-append k_delim key value h.0)
      ∙ ap (λ o. kv_value (next k) key value o m) (cut-none kv_delim value h.1)

  parse_kv_loop-more :
      (k : ℕ) (key value rest : List ℕ) (m : StdMap (List ℕ))
      → IsWritable (key, value)
      → parse_kv_loop (suc k) k_delim kv_delim (key ++ k_delim ∷ (value ++ kv_delim ∷ rest)) m
        ≡ parse_kv_loop k k_delim kv_delim rest (assign key value m)
  unfolding parse_kv_loop
  parse_kv_loop-more k key value rest m h =
      ap (λ o. kv_key kv_delim (next k) o m) (cut-append k_delim key (value ++ kv_delim ∷ rest) h.0)
      ∙ ap (λ o. kv_value (next k) key (value ++ kv_delim ∷ rest) o m)
          (cut-append kv_delim value rest h.1)

  parse_kv_loop-none :
      (k : ℕ) (s : List ℕ) (m : StdMap (List ℕ))
      → member k_delim s ≡ false
      → parse_kv_loop k k_delim kv_delim s m ≡ m
  unfolding parse_kv_loop
  parse_kv_loop-none zero s m h = refl
  parse_kv_loop-none (suc k) s m h = ap (λ o. kv_key kv_delim (next k) o m) (cut-none k_delim s h)

  shorter :
      (k : ℕ) (key value rest : List ℕ)
      → length (key ++ k_delim ∷ (value ++ kv_delim ∷ rest)) < suc k
      → length rest < k
  shorter k key value rest h = omega (
    arith,
    length-append key (k_delim ∷ (value ++ kv_delim ∷ rest)),
    length-append value (kv_delim ∷ rest),
  )

  parse_kv_loop-kv_text :
      (k : ℕ) (ps : List (List ℕ × List ℕ)) (m : StdMap (List ℕ))
      → length (kv_text ps) < k
      → Every IsWritable ps
      → parse_kv_loop k k_delim kv_delim (kv_text ps) m ≡ set_all ps m
  parse_kv_loop-kv_text zero ps m h ok = absurd (omega arith)
  parse_kv_loop-kv_text (suc k) [] m h ok = parse_kv_loop-none (suc k) [] m refl
  parse_kv_loop-kv_text (suc k) ((key, value) ∷ []) m h ok = parse_kv_loop-last k key value m ok.0
  parse_kv_loop-kv_text (suc k) ((key, value) ∷ q ∷ ps) m h ok =
      parse_kv_loop-more k key value (kv_text (q ∷ ps)) m ok.0
      ∙ parse_kv_loop-kv_text k (q ∷ ps) (assign key value m)
          (shorter k key value (kv_text (q ∷ ps)) h) ok.1

  -- If no key has the first delimiter in it and no value the second one, ParseKV on the text of a
  -- list of pairs assigns the pairs in their order and nothing else, and so a later value of a key
  -- replaces an earlier one.
  pub parse_kv-kv_text :
      (ps : List (List ℕ × List ℕ)) (m : StdMap (List ℕ))
      → Every IsWritable ps
      → parse_kv k_delim kv_delim (kv_text ps) m ≡ set_all ps m
  unfolding parse_kv
  parse_kv-kv_text ps m ok = parse_kv_loop-kv_text (suc (length (kv_text ps))) ps m (omega arith) ok

  -- A second delimiter inside of a value ends it, and what follows it is dropped where it has no
  -- first delimiter.
  pub parse_kv-cut_short :
      (key value rest : List ℕ) (m : StdMap (List ℕ))
      → IsWritable (key, value)
      → member k_delim rest ≡ false
      → parse_kv k_delim kv_delim (key ++ k_delim ∷ (value ++ kv_delim ∷ rest)) m
        ≡ assign key value m
  unfolding parse_kv
  parse_kv-cut_short key value rest m h r =
      let size = length (key ++ k_delim ∷ (value ++ kv_delim ∷ rest)) in
      parse_kv_loop-more size key value rest m h
      ∙ parse_kv_loop-none size rest (assign key value m) r
