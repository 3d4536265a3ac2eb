-- ===== src/Domain/Certificate/Expiry.antt =====
-- The two tests for a certificate that is about to expire.
use ephemos.Base.{ℕ, ◌+◌, ◌≤◌, ◌<◌, ◌≡◌, ◌↔◌, true, some, arith}
use ephemos.Base.Int.{pos}
use ephemos.GoTime.{Time, after, sub_time, add_time, saturate}
use ephemos.Domain.X509.{X509}
use ephemos.Domain.Certificate.{Certificate, is_expired, is_expiring_within, is_expiring_soon}

-- For a threshold of n nanoseconds, from 0 to two below 2 ^ 63: IsExpiringWithin holds up to the
-- moment at which n nanoseconds remain, that moment included, and IsExpiringSoon from just after it;
-- an expired certificate is expiring soon.
pub is_expiring_iff :
    (now : Time) (c : Certificate) (x : X509) (n : ℕ)
    → c.cert ≡ some x
    → n < 9223372036854775807
    → ((is_expiring_within now (pos n) c ≡ true) ↔ (x.not_after ≤ now + n))
      × ((is_expiring_soon now (pos n) c ≡ true) ↔ (x.not_after < now + n))
      × (is_expired now c ≡ true → is_expiring_soon now (pos n) c ≡ true)
unfolding is_expiring_within is_expiring_soon is_expired after add_time sub_time saturate
is_expiring_iff now c x n e h = rw e (ground arith)
