-- ===== src/Examples/Bundles.antt =====
-- Object ids and bundles, on the object model of one type whose objects are bytes.
use astral_go.Base.{
  ℕ, zero, suc, ◌%◌, ◌+◌, ◌≡◌, ◌↔◌, refl, none, some, List, [], ◌∷◌, ◌++◌, length, replicate,
  get_elem?, IsBytes, arith, inl, str_comparable,
}
use astral_go.Wire.Out.{ok, stream_corrupted}
use astral_go.Wire.Stream.{naked, write}
use astral_go.Wire.Reads.{source}
use astral_go.Wire.Writes.{sink, Writes-write}
use astral_go.Wire.Ledger.{Allows}
use astral_go.Astral.Header.{write_stamp, write_object_type}
use astral_go.Astral.Sized.{write_string}
use astral_go.Sig.Map.{get}
use astral_go.Astral.Fixed.{big_endian, write_fixed}
use astral_go.Astral.ObjectId.{ObjectId, IsId, to_string, partial_string, parse_id}
use astral_go.Astral.ObjectId.Laws.{parse_id-to_string, parse_id-partial_string}
use astral_go.Channel.Objects.{ObjectModel}
use astral_go.Bundle.{Bundle, new_bundle, resolve_object_id, fetch, write_bundle, read_bundle}
use astral_go.Bundle.Laws.{IsIndexed, appends, appends-IsIndexed, fetch_iff}
use astral_go.Bundle.Members.{IsMember}
use astral_go.Bundle.RoundTrip.{
  AreMembers, frames_of, cost_of, bundle_bytes, read_bundle-write_bundle,
}
use astral_go.Bundle.Untyped.{untyped_bytes, Fails, write_bundle-untyped}
use astral_go.Examples.Wire.{bytes_model, seven-IsCodable}

abbrev some_id : ObjectId
some_id = record { size = 10; hash = 255 ∷ 1 ∷ replicate 30 0 }

some_id-IsId : IsId some_id
some_id-IsId = record { size_fits = omega arith; hash_length = refl; hash_bytes = omega arith }

parse_id-to_string_example : parse_id (to_string some_id) ≡ inl some_id
parse_id-to_string_example = parse_id-to_string some_id some_id-IsId

parse_id-partial_string_example :
    parse_id (partial_string some_id) ≡ inl (record { size = 0; hash = 255 ∷ 1 ∷ replicate 30 0 })
parse_id-partial_string_example = parse_id-partial_string some_id some_id-IsId

-- A hash for the examples: the first bytes of the input.
abbrev first_bytes : ℕ → List ℕ → List ℕ
first_bytes zero bs = []
first_bytes (suc k) [] = 0 ∷ first_bytes k []
first_bytes (suc k) (b ∷ bs) = b % 256 ∷ first_bytes k bs

first_bytes-IsHash :
    (k : ℕ) (bs : List ℕ) → (length (first_bytes k bs) ≡ k) × IsBytes (first_bytes k bs)
first_bytes-IsHash zero bs = (refl, tt)
first_bytes-IsHash (suc k) [] =
    let (l, b) = first_bytes-IsHash k [] in (omega (arith, l), (omega arith, b))
first_bytes-IsHash (suc k) (x ∷ bs) =
    let (l, b) = first_bytes-IsHash k bs in (omega (arith, l), (omega arith, b))

abbrev digest : List ℕ → List ℕ
digest = first_bytes 32

abbrev one_call : List (List ℕ)
one_call = (7 ∷ []) ∷ []

appends-IsIndexed_example :
    IsIndexed bytes_model digest (appends bytes_model digest one_call new_bundle)
appends-IsIndexed_example = appends-IsIndexed bytes_model digest one_call

fetch_iff_example :
    (fetch bytes_model digest some_id (appends bytes_model digest one_call new_bundle) ≡ some 7) ↔ (
      (i : ℕ) × (get_elem? (appends bytes_model digest one_call new_bundle).objects i ≡ some 7)
      × (resolve_object_id bytes_model digest 7 ≡ some some_id))
fetch_iff_example =
    fetch_iff bytes_model digest (appends bytes_model digest one_call new_bundle) some_id 7
      (appends-IsIndexed bytes_model digest one_call) (first_bytes-IsHash 32) some_id-IsId

seven_member : IsMember bytes_model 0 7
unfolding seven-IsCodable big_endian
seven_member = record {
  payload = big_endian 1 7;
  codable = seven-IsCodable;
  shallow = omega arith;
  typed = omega arith;
  short = omega arith;
  small = omega arith;
}

members : AreMembers bytes_model 0 (appends bytes_model digest one_call new_bundle).objects
unfolding appends resolve_object_id write_stamp write_object_type write_string write_fixed write get
members = (seven_member, tt)

room :
    Allows 1
      (frames_of bytes_model 0 (appends bytes_model digest one_call new_bundle).objects members + 1)
      (4 + cost_of bytes_model 0 (appends bytes_model digest one_call new_bundle).objects members)
      none
unfolding members frames_of cost_of appends resolve_object_id write_stamp write_object_type
    write_string write_fixed write get seven_member seven-IsCodable big_endian
room = (omega arith, omega arith, omega arith)

read_bundle-write_bundle_example :
    let bd = appends bytes_model digest one_call new_bundle in
    let bs = bundle_bytes bytes_model 0 bd.objects members in
    (write_bundle bytes_model bd (sink [] none) ≡ ok tt (length bs) (sink ([] ++ bs) none))
    × (read_bundle bytes_model digest (source (bs ++ (9 ∷ [])) none)
        ≡ ok bd (length bs) (source (9 ∷ []) none))
read_bundle-write_bundle_example =
    read_bundle-write_bundle bytes_model 0 digest one_call [] (9 ∷ []) none members room

-- The model with untyped objects in place of the named ones.
abbrev blobs : ObjectModel
blobs = record { Object = List ℕ; object_type = λ o. []; write_to = write; new = λ t. none }

write_bundle-untyped_example :
    let b : Bundle (List ℕ) = record { objects = (1 ∷ 2 ∷ []) ∷ []; index = [] } in
    let bs = untyped_bytes (1 ∷ 2 ∷ []) in
    (write_bundle blobs b (sink [] none) ≡ ok tt (length bs) (sink ([] ++ bs) none))
    × Fails stream_corrupted (read_bundle blobs digest (naked (bs ++ [])))
write_bundle-untyped_example =
    write_bundle-untyped blobs digest (record { objects = (1 ∷ 2 ∷ []) ∷ []; index = [] })
      (1 ∷ 2 ∷ []) (1 ∷ 2 ∷ []) [] [] 0 0 refl refl refl (Writes-write 0 (1 ∷ 2 ∷ [])) (omega arith)
      (omega arith) (omega arith)
