-- ===== src/Domain/Timeouts.antt =====
-- internal/domain/types.go: the timeouts in force for a provider and for a proxy profile.
use aiyolo.Base.{if◌then◌else◌, arith}
use aiyolo.Base.Int.{ℤ, pos, ltb_ℤ, ◌<ℤ◌, ◌≤ℤ◌}
use aiyolo.Domain.Routes.{Provider, ProxyProfile}

abbrev pub default_provider_timeout_seconds : ℤ
default_provider_timeout_seconds = pos 90

abbrev pub default_provider_stream_idle_timeout_seconds : ℤ
default_provider_stream_idle_timeout_seconds = pos 300

abbrev pub default_proxy_timeout_seconds : ℤ
default_proxy_timeout_seconds = pos 60

abbrev pub default_proxy_stream_idle_timeout_seconds : ℤ
default_proxy_stream_idle_timeout_seconds = pos 300

pub effective_stream_idle_timeout_seconds : ℤ → ℤ → ℤ → ℤ
effective_stream_idle_timeout_seconds explicit regular fallback =
    if ltb_ℤ (pos 0) explicit
    then explicit
    else if ltb_ℤ fallback regular
    then regular
    else fallback

unfoldable pub effective_provider_timeout_seconds : Provider → ℤ
effective_provider_timeout_seconds p =
    if ltb_ℤ (pos 0) p.timeout_seconds then p.timeout_seconds else default_provider_timeout_seconds

unfoldable pub effective_provider_stream_idle_timeout_seconds : Provider → ℤ
unfolding effective_stream_idle_timeout_seconds effective_provider_timeout_seconds
effective_provider_stream_idle_timeout_seconds p =
    effective_stream_idle_timeout_seconds p.stream_idle_timeout_seconds
      (effective_provider_timeout_seconds p) default_provider_stream_idle_timeout_seconds

unfoldable pub effective_proxy_profile_timeout_seconds : ProxyProfile → ℤ
effective_proxy_profile_timeout_seconds p =
    if ltb_ℤ (pos 0) p.timeout_seconds then p.timeout_seconds else default_proxy_timeout_seconds

unfoldable pub effective_proxy_profile_stream_idle_timeout_seconds : ProxyProfile → ℤ
unfolding effective_stream_idle_timeout_seconds effective_proxy_profile_timeout_seconds
effective_proxy_profile_stream_idle_timeout_seconds p =
    effective_stream_idle_timeout_seconds p.stream_idle_timeout_seconds
      (effective_proxy_profile_timeout_seconds p) default_proxy_stream_idle_timeout_seconds

-- Both timeouts of a provider are positive; without an explicit idle timeout, a stream may stay
-- idle for at least as long as the whole of an ordinary request.
pub provider_timeouts_pos :
    (p : Provider)
    → (pos 0 <ℤ effective_provider_timeout_seconds p)
      × (pos 0 <ℤ effective_provider_stream_idle_timeout_seconds p)
      × (p.stream_idle_timeout_seconds ≤ℤ pos 0
          → effective_provider_timeout_seconds p
            ≤ℤ effective_provider_stream_idle_timeout_seconds p)
unfolding effective_provider_stream_idle_timeout_seconds
provider_timeouts_pos p = ground arith
