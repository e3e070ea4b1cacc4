-- ===== src/Routes/Screening/Uploads.antt =====
-- For whom an upload key is accepted: aws_clients.`generate_upload_url` and the guard of
-- routes/batches_routes.py.
use Prim.Native.Nat.{◌^◌}
use mathlib.Core.List.{append_assoc}
use prompt_patrol.Common.{
  ℕ, zero, suc, ◌-◌, ◌<◌, true, some, List, [], ◌∷◌, ◌++◌, Text, ◌≡◌, ◌↔◌, refl, ap, sym, ◌∙◌,
  arith, length, length-append, length-take, drop,
}
use prompt_patrol.Models.{Uuid}
use prompt_patrol.World.{World, ok, ◌>>=◌}
use prompt_patrol.Cursors.Uuids.{uuid_text, starts_with, hex_onto, dashed, read_uuid}
use prompt_patrol.Cursors.RoundTrip.{read_uuid-uuid_text, length-hex_onto}
use prompt_patrol.Routes.Screening.{key_prefix, issued_to, generate_upload_url}

starts_with-append : (p s : Text) → starts_with p (p ++ s) ≡ true
starts_with-append [] s = refl
starts_with-append (c ∷ p) s = ground (arith, starts_with-append p s)

-- Texts of one length that begin alike are the same.
starts_with-same :
    (a b s t : Text) → length a ≡ length b → starts_with (a ++ s) (b ++ t) ≡ true → a ≡ b
starts_with-same [] [] s t h k = refl
starts_with-same [] (d ∷ b) s t h k = absurd (omega (arith, h))
starts_with-same (c ∷ a) [] s t h k = absurd (omega (arith, h))
starts_with-same (c ∷ a) (d ∷ b) s t h k =
    let rest : a ≡ b = starts_with-same a b s t (omega (arith, h)) (ground (arith, k)) in
    let first : c ≡ d = ground (arith, k) in cc

length-drop {ℓ} : {A : Type ℓ} (n : ℕ) (xs : List A) → length (drop n xs) ≡ length xs - n
length-drop zero xs = omega arith
length-drop (suc n) [] = omega arith
length-drop (suc n) (x ∷ xs) = omega (arith, length-drop n xs)

length-dashed : (h : Text) → length h ≡ 32 → length (dashed h) ≡ 36
length-dashed h k = omega (arith, k, length-append {0}, length-take {0}, length-drop {0})

length-uuid_text : (u : Uuid) → length (uuid_text u) ≡ 36
unfolding uuid_text
length-uuid_text u = length-dashed (hex_onto 32 u []) (length-hex_onto 32 u [])

uuid_text_inj : (u v : Uuid) → u < 2 ^ 128 → v < 2 ^ 128 → uuid_text u ≡ uuid_text v → u ≡ v
uuid_text_inj u v hu hv e =
    let both : some u ≡ some v =
      sym (read_uuid-uuid_text u hu) ∙ ap read_uuid e ∙ read_uuid-uuid_text v hv in
    cc

prefix_exactly :
    (u v : Uuid) (t : Text)
    → u < 2 ^ 128
    → v < 2 ^ 128
    → (issued_to u (key_prefix v ++ t) ≡ true) ↔ (u ≡ v)
unfolding issued_to
prefix_exactly u v t hu hv = (
  (λ h. uuid_text_inj u v hu hv (
      starts_with-same (uuid_text u) (uuid_text v) (b'/' ∷ []) (b'/' ∷ t)
        (length-uuid_text u ∙ sym (length-uuid_text v))
        (rw (← append_assoc (uuid_text v) (b'/' ∷ []) t) h))),
  (λ e. rw e (starts_with-append (key_prefix v) t)),
)

starts_with-rest : (p s : Text) → starts_with p s ≡ true → (rest : Text) × (s ≡ p ++ rest)
starts_with-rest [] s h = (s, refl)
starts_with-rest (c ∷ p) [] h = cc
starts_with-rest (c ∷ p) (d ∷ s) h =
    let (rest, e) = starts_with-rest p s (ground (arith, h)) in
    let first : c ≡ d = ground (arith, h) in (rest, (let t : s ≡ p ++ rest = e in cc))

-- The guard on a submitted key lets through exactly the keys that begin with the caller's prefix; and
-- a key that was issued to one account passes it for that account and for no other, with identifiers
-- of 128 bits.
pub issued_to_exactly :
    (u v : Uuid) (file_name issued key : Text) (w : World)
    → u < 2 ^ 128
    → v < 2 ^ 128
    → (generate_upload_url file_name v w).0 ≡ ok issued
    → ((issued_to u key ≡ true) ↔ ((rest : Text) × (key ≡ key_prefix u ++ rest)))
      × ((issued_to u issued ≡ true) ↔ (u ≡ v))
unfolding generate_upload_url issued_to ◌>>=◌
issued_to_exactly u v file_name issued key w hu hv h =
    let fresh : Uuid = w.outside.fresh w.calls in
    let rest : Text = uuid_text fresh ++ (b'-' ∷ file_name) in
    let same : key_prefix v ++ rest ≡ issued = cc in
    (
      (starts_with-rest (key_prefix u) key, λ k. rw k.1 (starts_with-append (key_prefix u) k.0)),
      rw (← same) (prefix_exactly u v rest hu hv),
    )
