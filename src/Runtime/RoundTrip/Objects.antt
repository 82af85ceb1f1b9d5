-- ===== src/Runtime/RoundTrip/Objects.antt =====
-- WriteTo and ReadFrom of runtime values together (astral/runtime_object.go).
use astral_go.Base.{ℕ, ◌+◌, ◌≤◌, ◌≡◌, some, List}
use astral_go.Wire.Reads.{Reads}
use astral_go.Wire.Writes.{Writes}
use astral_go.Blueprints.Registry.{Chain}
use astral_go.Runtime.Value.{Prototypes, Value, type_of}
use astral_go.Runtime.Construct.{new}
use astral_go.Runtime.Write.{write_value}
use astral_go.Runtime.Read.{read_object}
use astral_go.Runtime.Coded.{Coded}
use astral_go.Runtime.RoundTrip.Writing.{levels, writes_value}
use astral_go.Runtime.RoundTrip.Slots.{zero_of, new-zero_of}
use astral_go.Runtime.RoundTrip.Reading.{reads_value}

module _ (P : Prototypes) (d : ℕ) (chain : Chain P.Object) where
  -- A value with a wire form, of at most `n` nested runtime objects over compiled ones that need
  -- `d` frames of depth: WriteTo appends the form, New finds the type of the value, and ReadFrom of
  -- the new object, with two levels of fuel more than the nesting, takes exactly the form and
  -- yields the value; each under every budget with room for `d + 4 * n` levels of depth, for the
  -- frames it takes and for the bytes.
  pub read_object-write_value :
      {n : ℕ} {v : Value P.Object} {bs : List ℕ} (fuel : ℕ)
      → Coded P d chain n v bs
      → n + 2 ≤ fuel
      → (f : ℕ) × (g : ℕ) × (z : Value P.Object) × (new P.fresh chain (type_of P.object_type v)
          ≡ some z)
        × Writes (levels d n) f (write_value P v) bs
        × Reads (levels d n) g (read_object P fuel chain z) bs v
  read_object-write_value fuel h e =
      let (f, w) = writes_value P d chain h in
      let (g, r) = reads_value P d chain h fuel e in
      (f, g, zero_of P d chain h, new-zero_of P d chain h, w, r)
