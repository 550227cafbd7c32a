-- ===== src/Webhooks/Url.antt =====
-- Where a webhook may point: `assertSafeUrl` of src/webhooks/webhooks.service.ts.
pub mod Ipv4
use cimp.Prelude.{
  ℕ, ◌+◌, Bool, true, false, not, ◌&&◌, ◌||◌, List, [], ◌∷◌, ◌++◌, Option, none, some, ◌==◌, leb,
  if◌then◌else◌, any, includes,
}
use cimp.Prelude.Text.{Text, codes, same_text, has_prefix, has_suffix}
use cimp.Domain.{
  Result, ok, err, ◌>>=◌, ◌>>◌, require, found, bad_request, invalid_url, https_only, ipv6_literal,
  private_address,
}

-- What the service reads of a parsed address.
pub record ParsedUrl : Type 0 where
  pub protocol : Text
  pub hostname : Text

-- `replace(/^\[|\]$/g, '')`.
pub without_close : Text → Text
without_close [] = []
without_close (c ∷ []) = if c == 93 then [] else c ∷ []
without_close (c ∷ d ∷ s) = c ∷ without_close (d ∷ s)

pub without_brackets : Text → Text
without_brackets [] = []
without_brackets (c ∷ s) = if c == 91 then without_close s else without_close (c ∷ s)

-- What follows the text `p` at the start of `s`.
pub behind : Text → Text → Text
behind [] s = s
behind (c ∷ p) [] = []
behind (c ∷ p) (d ∷ s) = behind p s

pub is_digit : ℕ → Bool
is_digit c = leb 48 c && leb c 57

-- Two characters, or three, that the test passes, and a dot.
pub two_and_dot : (ℕ → ℕ → Bool) → Text → Bool
two_and_dot f (x ∷ y ∷ z ∷ s) = f x y && z == 46
two_and_dot f _ = false

pub three_and_dot : (ℕ → ℕ → ℕ → Bool) → Text → Bool
three_and_dot f (x ∷ y ∷ z ∷ w ∷ s) = f x y z && w == 46
three_and_dot f _ = false

-- `1[6-9]|2\d|3[01]`.
pub sixteen_up : ℕ → ℕ → Bool
sixteen_up x y =
    (x == 49 && leb 54 y && leb y 57)
    || (x == 50 && is_digit y)
    || (x == 51 && (y == 48 || y == 49))

-- `6[4-9]|[7-9]\d`, and `1[01]\d|12[0-7]`.
pub sixty_four_up : ℕ → ℕ → Bool
sixty_four_up x y = (x == 54 && leb 52 y && leb y 57) || (leb 55 x && leb x 57 && is_digit y)

pub up_to_127 : ℕ → ℕ → ℕ → Bool
up_to_127 x y z =
    (x == 49 && (y == 48 || y == 49) && is_digit z) || (x == 49 && y == 50 && leb 48 z && leb z 55)

-- `isPrivate`.
pub is_private : Text → Bool
is_private host =
    same_text host (codes "localhost")
    || has_suffix (codes ".localhost") host
    || same_text host (codes "0.0.0.0")
    || has_prefix (codes "127.") host
    || has_prefix (codes "10.") host
    || has_prefix (codes "192.168.") host
    || (has_prefix (codes "172.") host && two_and_dot sixteen_up (behind (codes "172.") host))
    || has_prefix (codes "169.254.") host
    || (has_prefix (codes "100.") host
        && (two_and_dot sixty_four_up (behind (codes "100.") host)
            || three_and_dot up_to_127 (behind (codes "100.") host)))

-- assertSafeUrl, with the runtime's URL parser and `toLowerCase`.
unfoldable pub assert_safe_url :
    (Text → Option ParsedUrl) → (Text → Text) → Text → Result (Unit {0})
unfolding same_text has_prefix has_suffix without_brackets without_close is_private behind
    two_and_dot three_and_dot sixteen_up sixty_four_up up_to_127 is_digit
assert_safe_url parse lower url = do
  parsed ← found (parse url) (bad_request invalid_url)
  require (same_text parsed.protocol (codes "https:")) (bad_request https_only)
  require (not (includes (without_brackets (lower parsed.hostname)) 58)) (bad_request ipv6_literal)
  require (not (is_private (without_brackets (lower parsed.hostname))))
      (bad_request private_address)
