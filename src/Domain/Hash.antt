-- ===== src/Domain/Hash.antt =====
-- app/domain/value_objects/file_hash.py: the check by the pattern `^[a-f0-9]{64}$`.
use Prim.Native.Char.{code}
use file_extractor.Base.{
  ℕ, zero, suc, String, ◌≡◌, refl, ◌↔◌, ◌⊎◌, inl, inr, Bool, true, false, ◌&&◌, ◌||◌, List, [], ◌∷◌,
  ◌++◌, length, all, arith, leb, ◌==◌, if◌then◌else◌,
}
use mathlib.Core.List.{append-nil}
use file_extractor.Base.Errors.{domain, invalid_file_hash}
use file_extractor.Base.Exec.{Result, ok, raised}

-- The code points of a text.
abbrev pub codes : String → List ℕ
codes String.[] = []
codes (String.◌∷◌ c s) = code c ∷ codes s

-- `[a-f0-9]`
abbrev pub is_hex : ℕ → Bool
is_hex c = leb b'a' c && leb c b'f' || leb b'0' c && leb c b'9'

-- `[a-f0-9]{n}$`: in Python `$` also holds just before a newline that ends the text.
unfoldable pub matches_hex : ℕ → List ℕ → Bool
matches_hex zero [] = true
matches_hex zero (c ∷ []) = c == 10
matches_hex zero (c ∷ d ∷ cs) = false
matches_hex (suc n) [] = false
matches_hex (suc n) (c ∷ cs) = is_hex c && matches_hex n cs

pub record FileHash : Type 0 where
  pub value : String

-- `FileHash(value)`
unfoldable pub file_hash : String → Result FileHash
unfolding matches_hex
file_hash value =
    if matches_hex 64 (codes value)
    then ok (record { value = value })
    else raised (domain (invalid_file_hash value))

-- `FileHash.compute(data)`, over `hashlib.sha256(data).hexdigest()`.
unfoldable pub compute : (List ℕ → String) → List ℕ → Result FileHash
unfolding file_hash
compute sha256_hexdigest bytes = file_hash (sha256_hexdigest bytes)

-- What the pattern accepts, read off a text: the first `n` code points are hexadecimal digits, and
-- nothing follows but perhaps one newline.
abbrev pub IsHexLine : ℕ → List ℕ → Type 0
IsHexLine n cs =
    (ds : List ℕ) × (length ds ≡ n) × (all is_hex ds ≡ true) × ((cs ≡ ds) ⊎ (cs ≡ ds ++ 10 ∷ []))

matches_hex_sound : (n : ℕ) (cs : List ℕ) → matches_hex n cs ≡ true → IsHexLine n cs
unfolding matches_hex
matches_hex_sound zero [] h = ([], refl, refl, inl refl)
matches_hex_sound zero (c ∷ []) h = ([], refl, refl, inr (ground arith))
matches_hex_sound zero (c ∷ d ∷ cs) h = cc
matches_hex_sound (suc n) [] h = cc
matches_hex_sound (suc n) (c ∷ cs) h =
    let (ds, size, hex, rest) = matches_hex_sound n cs (ground arith) in
    (c ∷ ds, omega (arith, size), ground arith, ground arith)

matches_hex-append :
    (ds cs : List ℕ)
    → all is_hex ds ≡ true
    → matches_hex zero cs ≡ true
    → matches_hex (length ds) (ds ++ cs) ≡ true
unfolding matches_hex
matches_hex-append [] cs h k = k
matches_hex-append (d ∷ ds) cs h k = ground (arith, matches_hex-append ds cs)

matches_hex_complete : (n : ℕ) (cs : List ℕ) → IsHexLine n cs → matches_hex n cs ≡ true
unfolding matches_hex
matches_hex_complete n cs (ds, size, hex, inl e) =
    rw (← size, e) (rw append-nil at (matches_hex-append ds [] hex refl))
matches_hex_complete n cs (ds, size, hex, inr e) =
    rw (← size, e) (matches_hex-append ds (10 ∷ []) hex refl)

-- A text is accepted as a file hash exactly if it consists of 64 hexadecimal digits in lower case,
-- or of those and one newline behind them.
pub file_hash_iff :
    (value : String)
    → (file_hash value ≡ ok (record { value = value })) ↔ IsHexLine 64 (codes value)
unfolding file_hash
file_hash_iff value = (
  λ h. matches_hex_sound 64 (codes value) (ground arith),
  λ h. rw (matches_hex_complete 64 (codes value) h),
)
