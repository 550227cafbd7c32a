-- ===== src/Webhooks/Url/Ipv4.antt =====
-- The addresses in dotted decimals that `assertSafeUrl` of src/webhooks/webhooks.service.ts refuses.
use mathlib.Core.Path.{subst}
use cimp.Prelude.{
  ℕ, ◌+◌, ◌/◌, ◌%◌, ◌<◌, Bool, true, false, ◌&&◌, ◌||◌, [], ◌∷◌, ◌++◌, ◌≡◌, refl, ap, ◌∙◌, Option,
  some, ◌==◌, leb, ltb, if◌then◌else◌, includes, all, arith, inl, inr, Bool-cases,
}
use cimp.Prelude.Text.{Text, codes, same_text, has_prefix, has_suffix}
use cimp.Domain.{ok, err, bad_request, private_address}
use cimp.Webhooks.Url.{
  ParsedUrl, without_close, without_brackets, behind, is_digit, two_and_dot, three_and_dot,
  sixteen_up, sixty_four_up, up_to_127, is_private, assert_safe_url,
}

-- A number below 256 as decimals.
abbrev pub octet : ℕ → Text
octet n =
    if ltb n 10
    then (48 + n) ∷ []
    else if ltb n 100
    then (48 + n / 10) ∷ (48 + n % 10) ∷ []
    else (48 + n / 100) ∷ (48 + n / 10 % 10) ∷ (48 + n % 10) ∷ []

abbrev pub dotted : ℕ → ℕ → ℕ → ℕ → Text
dotted a b c d = octet a ++ 46 ∷ (octet b ++ 46 ∷ (octet c ++ 46 ∷ octet d))

-- Private, loopback, link-local and carrier-grade ranges, and the unspecified address.
abbrev pub is_reserved : ℕ → ℕ → ℕ → ℕ → Bool
is_reserved a b c d =
    (a == 0 && b == 0 && c == 0 && d == 0)
    || a == 127
    || a == 10
    || (a == 192 && b == 168)
    || (a == 172 && leb 16 b && leb b 31)
    || (a == 169 && b == 254)
    || (a == 100 && leb 64 b && leb b 127)

has_prefix-octet :
    (k a : ℕ) (p r : Text)
    → k < 256
    → a < 256
    → has_prefix (octet k ++ 46 ∷ p) (octet a ++ 46 ∷ r) ≡ (a == k && has_prefix p r)
unfolding has_prefix
has_prefix-octet k a p r hk ha = ground arith

has_prefix-number :
    (k a : ℕ) (r : Text)
    → k < 256
    → a < 256
    → has_prefix (octet k ++ 46 ∷ []) (octet a ++ 46 ∷ r) ≡ (a == k)
unfolding has_prefix
has_prefix-number k a r hk ha = has_prefix-octet k a [] r hk ha ∙ ground arith

has_prefix-numbers :
    (k l a b : ℕ) (r : Text)
    → k < 256
    → l < 256
    → a < 256
    → b < 256
    → has_prefix (octet k ++ 46 ∷ (octet l ++ 46 ∷ [])) (octet a ++ 46 ∷ (octet b ++ 46 ∷ r))
      ≡ (a == k && b == l)
has_prefix-numbers k l a b r hk hl ha hb =
    has_prefix-octet k a (octet l ++ 46 ∷ []) (octet b ++ 46 ∷ r) hk ha
    ∙ ap (λ x. a == k && x) (has_prefix-number l b r hl hb)

two_and_dot-octet :
    (b : ℕ) (r : Text)
    → b < 256
    → two_and_dot sixteen_up (octet b ++ 46 ∷ r) ≡ (leb 16 b && leb b 31)
unfolding two_and_dot sixteen_up is_digit
two_and_dot-octet b r h = ground arith

carrier_grade-octet :
    (b : ℕ) (r : Text)
    → b < 256
    → (two_and_dot sixty_four_up (octet b ++ 46 ∷ r) || three_and_dot up_to_127 (octet b ++ 46 ∷ r))
      ≡ (leb 64 b && leb b 127)
unfolding two_and_dot three_and_dot sixty_four_up up_to_127 is_digit
carrier_grade-octet b r h = ground arith

same_text-octet :
    (a : ℕ) (p r : Text)
    → a < 256
    → same_text (octet a ++ 46 ∷ r) (48 ∷ 46 ∷ p) ≡ (a == 0 && same_text r p)
unfolding same_text
same_text-octet a p r h = ground arith

same_text-octet_last : (a : ℕ) → a < 256 → same_text (octet a) (48 ∷ []) ≡ (a == 0)
unfolding same_text
same_text-octet_last a h = ground arith

-- Digits and dots.
abbrev is_low : Text → Bool
is_low s = all (λ c. leb 46 c && leb c 57) s

octet_low : (a : ℕ) (r : Text) → a < 256 → is_low r ≡ true → is_low (octet a ++ r) ≡ true
octet_low a r h low = ground arith

low-has_suffix : (s : Text) → is_low s ≡ true → has_suffix (codes ".localhost") s ≡ false
unfolding has_suffix same_text
low-has_suffix [] low = refl
low-has_suffix (c ∷ []) low = ground arith
low-has_suffix (c ∷ d ∷ s) low = ground (arith, low-has_suffix (d ∷ s))

low-same_text : (s : Text) → is_low s ≡ true → same_text s (codes "localhost") ≡ false
unfolding same_text
low-same_text [] low = refl
low-same_text (c ∷ s) low = ground arith

low-includes : (s : Text) → is_low s ≡ true → includes s 58 ≡ false
low-includes [] low = refl
low-includes (c ∷ s) low = ground (arith, low-includes s)

low-without_close : (s : Text) → is_low s ≡ true → without_close s ≡ s
unfolding without_close
low-without_close [] low = refl
low-without_close (c ∷ []) low = ground arith
low-without_close (c ∷ d ∷ s) low =
    ap (λ t. c ∷ t) (low-without_close (d ∷ s) (ground (arith, low)))

low-without_brackets : (s : Text) → is_low s ≡ true → without_brackets s ≡ s
unfolding without_brackets
low-without_brackets [] low = refl
low-without_brackets (c ∷ s) low = ground (arith, low-without_close (c ∷ s) low)

-- What the tests find in a host that begins with the numbers `a` and `b`.
record IsRead (a b c d : ℕ) (host : Text) : Type 0 where
  plain : same_text host (codes "localhost") ≡ false
  under : has_suffix (codes ".localhost") host ≡ false
  zero : same_text host (codes "0.0.0.0") ≡ (a == 0 && (b == 0 && (c == 0 && d == 0)))
  loopback : has_prefix (codes "127.") host ≡ (a == 127)
  ten : has_prefix (codes "10.") host ≡ (a == 10)
  home : has_prefix (codes "192.168.") host ≡ (a == 192 && b == 168)
  office : has_prefix (codes "172.") host ≡ (a == 172)
  office_range :
      (a == 172) ≡ true
      → two_and_dot sixteen_up (behind (codes "172.") host) ≡ (leb 16 b && leb b 31)
  link : has_prefix (codes "169.254.") host ≡ (a == 169 && b == 254)
  carrier : has_prefix (codes "100.") host ≡ (a == 100)
  carrier_range :
      (a == 100) ≡ true
      → (two_and_dot sixty_four_up (behind (codes "100.") host)
          || three_and_dot up_to_127 (behind (codes "100.") host))
        ≡ (leb 64 b && leb b 127)

IsRead-is_private :
    (a b c d : ℕ) (host : Text) → IsRead a b c d host → is_private host ≡ is_reserved a b c d
unfolding is_private
IsRead-is_private a b c d host r = ground (
  arith, r.plain, r.under, r.zero, r.loopback, r.ten, r.home, r.office, r.office_range, r.link,
  r.carrier, r.carrier_range,
)

assert_safe_url-host :
    (parse : Text → Option ParsedUrl) (lower : Text → Text) (url host : Text)
    → parse url ≡ some (record { protocol = codes "https:"; hostname = host })
    → without_brackets (lower host) ≡ host
    → includes host 58 ≡ false
    → assert_safe_url parse lower url
      ≡ (if is_private host then err (bad_request private_address) else ok tt)
unfolding assert_safe_url
assert_safe_url-host parse lower url host read bare v4 =
    rw (read, bare, v4) (elim (Bool-cases (is_private host)) [ inl h ↦ rw h | inr h ↦ rw h ])

module _ (a b c d : ℕ) (ha : a < 256) (hb : b < 256) (hc : c < 256) (hd : d < 256) where
  dotted_low : is_low (dotted a b c d) ≡ true
  dotted_low = octet_low a _ ha (octet_low b _ hb (octet_low c _ hc (ground arith)))

  dotted-IsRead : IsRead a b c d (dotted a b c d)
  unfolding behind
  dotted-IsRead = record {
    plain = low-same_text (dotted a b c d) dotted_low;
    under = low-has_suffix (dotted a b c d) dotted_low;
    zero =
        same_text-octet a (codes "0.0.0") (octet b ++ 46 ∷ (octet c ++ 46 ∷ octet d)) ha
        ∙ ap (λ x. a == 0 && x)
            (same_text-octet b (codes "0.0") (octet c ++ 46 ∷ octet d) hb
              ∙ ap (λ x. b == 0 && x)
                  (same_text-octet c (codes "0") (octet d) hc
                    ∙ ap (λ x. c == 0 && x) (same_text-octet_last d hd)));
    loopback = has_prefix-number 127 a (octet b ++ 46 ∷ (octet c ++ 46 ∷ octet d)) (omega arith) ha;
    ten = has_prefix-number 10 a (octet b ++ 46 ∷ (octet c ++ 46 ∷ octet d)) (omega arith) ha;
    home =
        has_prefix-numbers 192 168 a b (octet c ++ 46 ∷ octet d) (omega arith) (omega arith) ha hb;
    office = has_prefix-number 172 a (octet b ++ 46 ∷ (octet c ++ 46 ∷ octet d)) (omega arith) ha;
    office_range = λ h.
        let is_it : 172 ≡ a = ground (arith, h) in
        subst
          (λ n.
            two_and_dot sixteen_up (behind (codes "172.") (dotted n b c d))
            ≡ (leb 16 b && leb b 31))
          is_it (two_and_dot-octet b (octet c ++ 46 ∷ octet d) hb);
    link =
        has_prefix-numbers 169 254 a b (octet c ++ 46 ∷ octet d) (omega arith) (omega arith) ha hb;
    carrier = has_prefix-number 100 a (octet b ++ 46 ∷ (octet c ++ 46 ∷ octet d)) (omega arith) ha;
    carrier_range = λ h.
        let is_it : 100 ≡ a = ground (arith, h) in
        subst
          (λ n.
            (two_and_dot sixty_four_up (behind (codes "100.") (dotted n b c d))
              || three_and_dot up_to_127 (behind (codes "100.") (dotted n b c d)))
            ≡ (leb 64 b && leb b 127))
          is_it (carrier_grade-octet b (octet c ++ 46 ∷ octet d) hb);
  }

  -- An address over https whose host is an IPv4 address, as the parser writes it, is accepted exactly
  -- if it is outside the private, loopback, link-local and carrier-grade ranges and is not 0.0.0.0.
  pub assert_safe_url-dotted :
      (parse : Text → Option ParsedUrl) (lower : Text → Text) (url : Text)
      → parse url ≡ some (record { protocol = codes "https:"; hostname = dotted a b c d })
      → lower (dotted a b c d) ≡ dotted a b c d
      → assert_safe_url parse lower url
        ≡ (if is_reserved a b c d then err (bad_request private_address) else ok tt)
  assert_safe_url-dotted parse lower url read kept =
      assert_safe_url-host parse lower url (dotted a b c d) read
        (ap without_brackets kept ∙ low-without_brackets (dotted a b c d) dotted_low)
        (low-includes (dotted a b c d) dotted_low)
      ∙ ap (λ x. if x then err (bad_request private_address) else ok tt)
          (IsRead-is_private a b c d (dotted a b c d) dotted-IsRead)
