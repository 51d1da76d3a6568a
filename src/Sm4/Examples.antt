-- ===== src/Sm4/Examples.antt =====
-- The theorems on SM4 at concrete inputs.
use gm_crypto_rs.Base.{
  ◌≢◌, ap, ℕ, ◌+◌, ◌*◌, ◌/◌, ◌≡◌, ◌↔◌, refl, List, [], ◌∷◌, length, flatten, foldl,
}
use gm_crypto_rs.Base.{none, some, arith, get_or}
use gm_crypto_rs.Base.Plain.{plain_subtle}
use gm_crypto_rs.Sm4.Cipher
use gm_crypto_rs.Sm4.Cipher.{sbox_ct, s_box, encrypt_block, decrypt_block}
use gm_crypto_rs.Sm4.Cipher.Inverse.{IsBlock, decrypt_block-encrypt_block}
use gm_crypto_rs.Sm4.Cbc
use gm_crypto_rs.Sm4.Cbc.{strip_pkcs7_block}
use gm_crypto_rs.Sm4.Cbc.Strip.{IsPadded, strip_pkcs7_block_iff}
use gm_crypto_rs.Sm4.Cbc.RoundTrip.{decrypt-encrypt}
use gm_crypto_rs.Sm4.CbcStreaming.{new_encryptor, encrypt_update, encrypt_finalize}
use gm_crypto_rs.Sm4.CbcStreaming.{new_decryptor, decrypt_update, decrypt_finalize}
use gm_crypto_rs.Sm4.CbcStreaming.Encryptor.{encrypt_pieces}
use gm_crypto_rs.Sm4.CbcStreaming.Decryptor.{decrypt_pieces}
use gm_crypto_rs.Base.{◌++◌, take, drop}
use gm_crypto_rs.Sm4.CcmStreaming
use gm_crypto_rs.Sm4.CcmStreaming.{Sm4CcmDecryptor, update, finalize_verify}
use gm_crypto_rs.Sm4.CcmStreaming.Verify.{ccm_pieces}
use gm_crypto_rs.Sm4.CcmStreaming.Encryptor
use gm_crypto_rs.Sm4.CcmStreaming.Encryptor.{Sm4CcmEncryptor, finalize}
use gm_crypto_rs.Sm4.CcmStreaming.Encryptor.Pieces.{made}
use gm_crypto_rs.Sm4.CcmStreaming.Encryptor.Pieces.{encryptor_pieces}
use gm_crypto_rs.Sm4.CcmStreaming.Encryptor.Fed.{feed}
use gm_crypto_rs.Sm4.CcmStreaming.Encryptor.Commitment.{incomplete_rejected, refused_for_good}
use gm_crypto_rs.Sm4.Ccm
use gm_crypto_rs.Sm4.Ccm.Exact.{ccm_exact, ccm_round_trip}
use gm_crypto_rs.Sm4.Gcm
use gm_crypto_rs.Sm4.Gcm.{gcm_tag_len, encrypt_with_tag_len, decrypt_with_tag_len}
use gm_crypto_rs.Sm4.Gcm.Exact.{gcm_tag_len_exact}
use gm_crypto_rs.Sm4.Gcm.RoundTrip.{gcm_round_trip, gcm_full_tag}
use gm_crypto_rs.Sm4.Xts
use gm_crypto_rs.Sm4.Xts.{encrypt_sectors, decrypt_sectors}
use gm_crypto_rs.Sm4.Xts.RoundTrip.{xts_round_trip}
use gm_crypto_rs.Sm4.Xts.Sectors.{
  sector_by_sector, encrypt_sectors-sector_by_sector, sectors_round_trip,
}
use gm_crypto_rs.Sm4.Ctr
use gm_crypto_rs.Sm4.CtrStreaming
use gm_crypto_rs.Sm4.CtrStreaming.Position.{ctr_pieces, update_all}

abbrev key : List ℕ
key =
    0x01 ∷ 0x23 ∷ 0x45 ∷ 0x67 ∷ 0x89 ∷ 0xab ∷ 0xcd ∷ 0xef ∷ 0xfe ∷ 0xdc ∷ 0xba ∷ 0x98 ∷ 0x76 ∷ 0x54
    ∷ 0x32 ∷ 0x10 ∷ []

abbrev padded : List ℕ
padded = 1 ∷ 2 ∷ 3 ∷ 4 ∷ 5 ∷ 6 ∷ 7 ∷ 8 ∷ 9 ∷ 10 ∷ 11 ∷ 12 ∷ 13 ∷ 3 ∷ 3 ∷ 3 ∷ []

abbrev pieces : List (List ℕ)
pieces = (1 ∷ 2 ∷ 3 ∷ []) ∷ [] ∷ key ∷ (4 ∷ []) ∷ []

abbrev text : List ℕ
text = 7 ∷ 8 ∷ []

padded-IsBlock : IsBlock padded
padded-IsBlock = record { width = refl; bytes = omega arith }

decrypt_block-encrypt_block_example :
    (decrypt_block (Cipher.new key) (encrypt_block (Cipher.new key) padded) ≡ padded)
    × (encrypt_block (Cipher.new key) (decrypt_block (Cipher.new key) padded) ≡ padded)
    × IsBlock (encrypt_block (Cipher.new key) padded)
    × IsBlock (decrypt_block (Cipher.new key) padded)
decrypt_block-encrypt_block_example =
    decrypt_block-encrypt_block (Cipher.new key) padded padded-IsBlock

strip_pkcs7_block_example : (strip_pkcs7_block padded ≡ some 13) ↔ IsPadded padded 13
strip_pkcs7_block_example = strip_pkcs7_block_iff padded 13 padded-IsBlock

decrypt-encrypt_example :
    (Cbc.decrypt key padded (Cbc.encrypt key padded text) ≡ some text)
    × (length (Cbc.encrypt key padded text) ≡ (length text / 16 + 1) * 16)
decrypt-encrypt_example = decrypt-encrypt key padded text padded-IsBlock (omega arith)

encrypt_pieces_example :
    encrypt_finalize (foldl encrypt_update (new_encryptor key padded) pieces)
    ≡ Cbc.encrypt key padded (flatten pieces)
encrypt_pieces_example = encrypt_pieces key padded pieces

decrypt_pieces_example :
    decrypt_finalize (foldl decrypt_update (new_decryptor key padded) pieces)
    ≡ Cbc.decrypt key padded (flatten pieces)
decrypt_pieces_example = decrypt_pieces key padded pieces

ctr_pieces_example :
    update_all (CtrStreaming.new key padded) pieces ≡ some (Ctr.encrypt key padded (flatten pieces))
ctr_pieces_example = ctr_pieces key padded pieces padded-IsBlock

abbrev nonce : List ℕ
nonce = 1 ∷ 2 ∷ 3 ∷ 4 ∷ 5 ∷ 6 ∷ 7 ∷ 8 ∷ 9 ∷ 10 ∷ 11 ∷ 12 ∷ []

nonce_valid : Ccm.validate_params nonce (length text) 8 ≡ some tt
unfolding Ccm.validate_params Ccm.payload_ceiling
nonce_valid = refl

ccm_round_trip_example :
    (sealed : List ℕ) × (Ccm.encrypt key nonce padded text 8 ≡ some sealed)
    × (length sealed ≡ length text + 8)
    × (Ccm.decrypt key nonce padded sealed 8 ≡ some text)
ccm_round_trip_example = ccm_round_trip key nonce padded text 8 nonce_valid

ccm_exact_example :
    (Ccm.decrypt key nonce [] padded 8 ≡ some text)
    ↔ (Ccm.encrypt key nonce [] text 8 ≡ some padded)
ccm_exact_example = ccm_exact key nonce [] text padded 8 padded-IsBlock.bytes

ccm_pieces_example :
    (d : Sm4CcmDecryptor) × (CcmStreaming.new key nonce [] ≡ some d)
    × (finalize_verify (foldl update d pieces) text
        ≡ Ccm.decrypt key nonce [] (flatten pieces ++ text) (length text))
ccm_pieces_example = ccm_pieces key nonce [] pieces text (omega arith) (omega arith)

pieces_valid : Ccm.validate_params nonce (length (flatten pieces)) 8 ≡ some tt
unfolding Ccm.validate_params Ccm.payload_ceiling flatten
pieces_valid = refl

encryptor_pieces_example :
    (e : Sm4CcmEncryptor) × (Encryptor.new key nonce text (length (flatten pieces)) 8 ≡ some e)
    × (ct : List ℕ) × ((feed e pieces).1 ≡ some ct)
    × (tag : List ℕ) × (finalize (feed e pieces).0 ≡ some tag)
    × (Ccm.encrypt key nonce text (flatten pieces) 8 ≡ some (ct ++ tag))
encryptor_pieces_example = encryptor_pieces key nonce text pieces 8 pieces_valid

abbrev committed : Sm4CcmEncryptor
committed = made key nonce [] 2 8

committed_made : Encryptor.new key nonce [] 2 8 ≡ some committed
unfolding Encryptor.new made
committed_made = rw nonce_valid refl

incomplete_rejected_example : finalize (feed committed pieces).0 ≡ none
unfolding flatten
incomplete_rejected_example =
    incomplete_rejected key nonce [] 2 8 committed pieces committed_made (omega arith)

too_long : (Encryptor.update committed padded).1 ≡ none
unfolding Encryptor.update Encryptor.within_commitment made
too_long = refl

refused_for_good_example :
    ((Encryptor.update (feed (Encryptor.update committed padded).0 pieces).0 text).1 ≡ none)
    × (finalize (feed (Encryptor.update committed padded).0 pieces).0 ≡ none)
refused_for_good_example = refused_for_good committed padded pieces text too_long

abbrev key_pair : List ℕ
key_pair = key ++ padded

abbrev pieces_text : List ℕ
pieces_text = padded ++ (9 ∷ 8 ∷ [])

abbrev data_unit : List ℕ
data_unit = padded ++ text

key_pair_differs : take 16 key_pair ≢ drop 16 key_pair
key_pair_differs e =
    let second : 0x23 ≡ 2 = ap (λ t. get_or t 1 0) e in absurd (omega (arith, second))

xts_round_trip_example :
    (sealed : List ℕ) × (Xts.encrypt key_pair padded data_unit ≡ some sealed)
    × (length sealed ≡ length data_unit)
    × (Xts.decrypt key_pair padded sealed ≡ some data_unit)
xts_round_trip_example =
    xts_round_trip key_pair padded data_unit (omega arith) (omega arith) key_pair_differs
      (omega arith) (omega arith)

encrypt_sectors_example :
    (out : List ℕ) × (encrypt_sectors key_pair 16 5 key_pair ≡ (some tt, out))
    × (sector_by_sector (Xts.encrypt key_pair) (length key_pair / 16) 16 5 key_pair ≡ some out)
encrypt_sectors_example =
    encrypt_sectors-sector_by_sector key_pair 16 5 key_pair (omega arith) key_pair_differs
      (omega arith) (omega arith) refl refl (omega arith)

sectors_round_trip_example :
    (out : List ℕ) × (encrypt_sectors key_pair 16 5 key_pair ≡ (some tt, out))
    × (length out ≡ length key_pair)
    × (decrypt_sectors key_pair 16 5 out ≡ (some tt, key_pair))
sectors_round_trip_example =
    sectors_round_trip key_pair 16 5 key_pair (omega arith) (omega arith) key_pair_differs
      (omega arith) (omega arith) refl refl (omega arith)

gcm_tag_len_exact_example :
    (decrypt_with_tag_len key nonce text pieces_text padded ≡ some data_unit) ↔ (
      (gcm_tag_len (length padded) ≡ some (length padded))
      × (encrypt_with_tag_len key nonce text data_unit (length padded)
          ≡ some (pieces_text, padded)))
gcm_tag_len_exact_example =
    gcm_tag_len_exact key nonce text data_unit pieces_text padded padded-IsBlock.bytes

twelve_admitted : gcm_tag_len 12 ≡ some 12
unfolding gcm_tag_len
twelve_admitted = refl

gcm_round_trip_example :
    (ciphertext : List ℕ) × (tag : List ℕ) × (encrypt_with_tag_len key nonce text data_unit 12
      ≡ some (ciphertext, tag))
    × (length ciphertext ≡ length data_unit)
    × (length tag ≡ 12)
    × (decrypt_with_tag_len key nonce text ciphertext tag ≡ some data_unit)
gcm_round_trip_example = gcm_round_trip key nonce text data_unit 12 (omega arith) twelve_admitted

gcm_full_tag_example :
    (encrypt_with_tag_len key nonce text data_unit 16 ≡ Gcm.encrypt key nonce text data_unit)
    × (decrypt_with_tag_len key nonce text pieces_text padded
        ≡ Gcm.decrypt key nonce text pieces_text padded)
gcm_full_tag_example = gcm_full_tag key nonce text data_unit pieces_text padded refl
