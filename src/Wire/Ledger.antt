-- ===== src/Wire/Ledger.antt =====
-- The resource ledger of astral/depth.go, `budget`: one per codec call, shared by every wrapper
-- that is derived from the first.
pub mod Laws
use astral_go.Base.{
  ℕ, ◌+◌, ◌-◌, ◌^◌, ◌≤◌, ◌≡◌, Bool, true, false, Option, none, some, arith, ltb, ◌==◌,
  if◌then◌else◌,
}

abbrev pub max_blueprint_depth : ℕ
max_blueprint_depth = 64

abbrev pub max_codec_frames : ℕ
max_codec_frames = 2 ^ 20

abbrev pub max_codec_bytes : ℕ
max_codec_bytes = 2 ^ 28

-- `depth int; frames, bytes int64`. Every `exit` follows its `enter`, so `depth` is never below 0.
pub record Ledger : Type 0 where
  pub depth : ℕ
  pub frames : ℕ
  pub bytes : ℕ

abbrev pub fresh : Ledger
fresh = record { depth = 0; frames = 0; bytes = 0 }

-- The Boolean tells that `enter` returned nil.
unfoldable pub enter : Ledger → Ledger × Bool
enter b =
    let d = b.depth + 1 in
    if ltb max_blueprint_depth d
    then (record b { depth = d }, false)
    else if ltb max_codec_frames (b.frames + 1)
    then (record b { depth = d; frames = b.frames + 1 }, false)
    else (record b { depth = d; frames = b.frames + 1 }, true)

unfoldable pub exit : Ledger → Ledger
exit b = record b { depth = b.depth - 1 }

-- The Boolean tells that `charge` returned nil.
unfoldable pub charge : ℕ → Ledger → Ledger × Bool
charge n b = if n == 0 then (b, true) else (
  record b { bytes = b.bytes + n },
  if ltb max_codec_bytes (b.bytes + n) then false else true,
)

-- What `Read` may still hand over.
unfoldable pub room : Ledger → ℕ
room b = max_codec_bytes - b.bytes

-- `f` frames and `n` bytes later, at the same depth.
abbrev pub spend : ℕ → ℕ → Option Ledger → Option Ledger
spend f n none = none
spend f n (some b) = some (record b { frames = b.frames + f; bytes = b.bytes + n })

-- The ledger allows `d` more nested frames, `f` frames and `n` bytes. A stream with no ledger
-- allows any number of bytes, and a call on it starts with a fresh one.
abbrev pub Allows : ℕ → ℕ → ℕ → Option Ledger → Type 0
Allows d f n none = (d ≤ max_blueprint_depth) × (f ≤ max_codec_frames) × (n ≤ max_codec_bytes)
Allows d f n (some b) =
    (b.depth + d ≤ max_blueprint_depth)
    × (b.frames + f ≤ max_codec_frames)
    × (b.bytes + n ≤ max_codec_bytes)

-- Entering a frame and leaving it again leaves the depth as it was, whether the guard let the frame
-- in or not.
pub exit-enter : (b : Ledger) → (exit (enter b).0).depth ≡ b.depth
unfolding enter exit
exit-enter b = ground arith
