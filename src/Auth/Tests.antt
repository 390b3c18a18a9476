-- ===== src/Auth/Tests.antt =====
-- The theorems on credentials, keys and methods at concrete inputs. The identity stands for SHA-256,
-- and every line is taken to be a key.
use minisshd.Prelude.{
  ◌≡◌, ◌≢◌, ◌↔◌, ◌≤◌, refl, true, false, some, [], ◌∷◌, Bytes, codes, length, arith, if◌then◌else◌,
  ◌==◌,
}
use minisshd.Auth.Credentials.{
  reason_bad_user, reason_bad_password, new_credentials, check, check-new_credentials,
}
use minisshd.Auth.Keyset
use minisshd.Auth.Keyset.{
  AcceptedKey, Keyset, Source, Line, entry, Log, File, not_exist, scanned, count, load, reload,
  parse, keys, reason_bad_key,
}
use minisshd.Auth.Keyset.Accepts.{listed_in, at_least_one, check_lem}
use minisshd.Auth.Keyset.Reloads.{reloads, reloads-keep}
use minisshd.Auth.Methods.Laws.{IsPlain}

abbrev hash : Bytes → Bytes
hash s = s

check-new_credentials_example :
    (let verdict =
        (check hash (new_credentials hash (codes "al") (codes "pw")) (codes "al") (codes "no")).0 in
      ((verdict ≡ (true, [])) ↔ ((codes "al" ≡ codes "al") × (codes "no" ≡ codes "pw")))
      × ((verdict ≡ (false, reason_bad_user)) ↔ (codes "al" ≢ codes "al"))
      × ((verdict ≡ (false, reason_bad_password))
          ↔ ((codes "al" ≡ codes "al") × (codes "no" ≢ codes "pw"))))
check-new_credentials_example =
    check-new_credentials hash (codes "al") (codes "pw") (codes "al") (codes "no") (λ e. e) (λ e. e)

abbrev line_of : Bytes → Line
line_of s = entry (record { key = s; comment = []; options = [] })

abbrev one_key : Keyset
one_key = record { marshal = 1 ∷ []; digest = 1 ∷ []; fingerprint = 1 ∷ []; comment = [] } ∷ []

abbrev one_source : Source
one_source = record { path = codes "keys"; cur = some one_key }

check_lem_example :
    (let r = Keyset.check hash hash hash line_of (some one_key) (2 ∷ []) in
      (r.0 ≡ (
        if listed_in (2 ∷ []) (some one_key)
        then (true, [], 2 ∷ [])
        else (false, reason_bad_key, 2 ∷ [])))
      × (length r.1 ≡ at_least_one (count (some one_key))))
check_lem_example = check_lem hash hash hash line_of (some one_key) (2 ∷ [])

reloads-keep_example :
    1 ≤ count (reloads hash hash hash line_of (not_exist (codes "gone") ∷ []) one_source).cur
unfolding count
reloads-keep_example =
    reloads-keep hash hash hash line_of (not_exist (codes "gone") ∷ []) one_source (omega arith)

-- `TrimSpace` on texts in which white space stands at the front only.
unfoldable trim_front : Bytes → Bytes
trim_front [] = []
trim_front (c ∷ s) = let rest = trim_front s in if c == 32 then rest else c ∷ s

trim_front-plain : (s : Bytes) → IsPlain s → trim_front s ≡ s
unfolding trim_front
trim_front-plain [] h = refl
trim_front-plain (c ∷ s) h = ground (arith, trim_front-plain s)
