-- ===== src/Files/Sandbox.antt =====
-- What a resolved path is.
use sys_agent.Prelude.{
  ℕ, ◌+◌, ◌≡◌, ◌≢◌, refl, ap, ◌∙◌, arith, Bool, false, ◌||◌, none, some, List, [], ◌∷◌, ◌++◌, Bytes,
  All, length, append_assoc, append-nil, ltb, ◌==◌, if◌then◌else◌,
}
use sys_agent.Config.Ini.{text_eq}
use sys_agent.Files.{has_byte, climbs_from, path_resolve, sd_prefix}

-- The bytes of a segment.
abbrev pub IsSegment : Bytes → Type 0
IsSegment = All (λ c. c ≢ b'/')

-- A path of segments, each with a slash in front.
abbrev pub path_of : List Bytes → Bytes
path_of [] = []
path_of (s ∷ rest) = b'/' ∷ (s ++ path_of rest)

climbs_from-segment :
    (read segment rest : Bytes)
    → IsSegment segment
    → climbs_from read (segment ++ rest) ≡ climbs_from (read ++ segment) rest
unfolding climbs_from
climbs_from-segment read [] rest h = rw append-nil refl
climbs_from-segment read (c ∷ cs) rest h =
    let other : (c == b'/') ≡ false = ground (arith, h.0) in
    let further = climbs_from-segment (read ++ (c ∷ [])) cs rest h.1 in
    rw (other, climbs_from) (further ∙ ap (λ t. climbs_from t rest) (append_assoc read (c ∷ []) cs))

-- Whether a segment is `..`.
abbrev pub has_parent : List Bytes → Bool
has_parent [] = false
has_parent (s ∷ rest) = text_eq s (b'.' ∷ b'.' ∷ []) || has_parent rest

climbs_from-slash :
    (s rest : Bytes)
    → climbs_from s (b'/' ∷ rest) ≡ (text_eq s (b'.' ∷ b'.' ∷ []) || climbs_from [] rest)
unfolding climbs_from
climbs_from-slash s rest = refl

climbs_from-path_of :
    (s : Bytes) (rest : List Bytes)
    → All IsSegment (s ∷ rest)
    → climbs_from [] (s ++ path_of rest) ≡ has_parent (s ∷ rest)
climbs_from-path_of s [] h = climbs_from-segment [] s [] h.0 ∙ unfold climbs_from in ground arith
climbs_from-path_of s (r ∷ rest) h =
    climbs_from-segment [] s (path_of (r ∷ rest)) h.0
    ∙ climbs_from-slash s (r ++ path_of rest)
    ∙ ap (λ b. text_eq s (b'.' ∷ b'.' ∷ []) || b) (climbs_from-path_of r rest h.1)

-- A path of at least one segment is resolved exactly if it has no colon, none of its segments is `..`, and it
-- fits the output behind the prefix `sdmc:` and with a terminator; and it is then the prefix with the whole
-- path behind it.
pub path_resolve-path_of :
    (s : Bytes) (rest : List Bytes) (output_size : ℕ)
    → All IsSegment (s ∷ rest)
    → let path = path_of (s ∷ rest) in
      path_resolve path output_size ≡ (
        if has_byte b':' path
          || has_parent (s ∷ rest)
          || ltb output_size (length sd_prefix + length path + 1)
        then none
        else some (sd_prefix ++ path))
unfolding path_resolve
path_resolve-path_of s rest output_size h = ground (arith, climbs_from-path_of s rest h)
