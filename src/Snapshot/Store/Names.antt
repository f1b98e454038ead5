-- ===== src/Snapshot/Store/Names.antt =====
-- The files of an endpoint have different names, and no two kinds of file share one.
use Prim.Native.Char.{code}
use Prim.Native.String.append
use text.Mathlib.TextLemmas.{append_cancel_right}
use apisnap.Common.{ℕ, ◌≡◌, ◌≢◌, refl, sym, ap, ◌∙◌, arith, eq_iff, String, false, str_eq, ◌<>◌}
use apisnap.Snapshot.Files.{json_name, enc_name, tmp_name}

last_code : String → ℕ
last_code String.[] = 0
last_code (String.◌∷◌ c String.[]) = code c
last_code (String.◌∷◌ c (String.◌∷◌ d s)) = last_code (String.◌∷◌ d s)

last_code-<> : (s t : String) → t ≢ "" → last_code (s <> t) ≡ last_code t
unfolding last_code
last_code-<> String.[] t h = ap last_code (append.nil t)
last_code-<> (String.◌∷◌ a String.[]) String.[] h = absurd (h refl)
last_code-<> (String.◌∷◌ a String.[]) (String.◌∷◌ c t) h =
    ap last_code
      (append.cons a String.[] (String.◌∷◌ c t) ∙ ap (String.◌∷◌ a) (append.nil (String.◌∷◌ c t)))
last_code-<> (String.◌∷◌ a (String.◌∷◌ b s)) t h =
    ap last_code (append.cons a (String.◌∷◌ b s) t ∙ ap (String.◌∷◌ a) (append.cons b s t))
    ∙ (ap last_code (sym (append.cons b s t)) ∙ last_code-<> (String.◌∷◌ b s) t h)

-- Texts that end in different characters are different.
ends_apart : (s t x y : String) → x ≢ "" → y ≢ "" → last_code x ≢ last_code y → s <> x ≢ t <> y
ends_apart s t x y hx hy apart e =
    apart (sym (last_code-<> s x hx) ∙ (ap last_code e ∙ last_code-<> t y hy))

refuse_eq : (s t : String) → s ≢ t → str_eq s t ≡ false
refuse_eq s t apart = ground (arith, eq_iff s t, apart)

module _ (s t : String) where
  pub tmp-ne-json : str_eq (tmp_name s) (json_name t) ≡ false
  unfolding last_code
  tmp-ne-json =
      refuse_eq _ _ (
        ends_apart s t ".snap.tmp" ".snap.json" (λ e. cc e) (λ e. cc e) (λ e. absurd (omega arith)))

  pub tmp-ne-enc : str_eq (tmp_name s) (enc_name t) ≡ false
  unfolding last_code
  tmp-ne-enc =
      refuse_eq _ _
        (ends_apart s t ".snap.tmp" ".snap.enc" (λ e. cc e) (λ e. cc e) (λ e. absurd (omega arith)))

  pub json-ne-enc : str_eq (json_name s) (enc_name t) ≡ false
  unfolding last_code
  json-ne-enc =
      refuse_eq _ _ (
        ends_apart s t ".snap.json" ".snap.enc" (λ e. cc e) (λ e. cc e) (λ e. absurd (omega arith)))

  pub enc-ne-json : str_eq (enc_name s) (json_name t) ≡ false
  unfolding last_code
  enc-ne-json =
      refuse_eq _ _ (
        ends_apart s t ".snap.enc" ".snap.json" (λ e. cc e) (λ e. cc e) (λ e. absurd (omega arith)))

  module _ (apart : s ≢ t) where
    pub json-ne-json : str_eq (json_name s) (json_name t) ≡ false
    json-ne-json = refuse_eq _ _ (λ e. apart (append_cancel_right s t ".snap.json" e))

    pub enc-ne-enc : str_eq (enc_name s) (enc_name t) ≡ false
    enc-ne-enc = refuse_eq _ _ (λ e. apart (append_cancel_right s t ".snap.enc" e))
