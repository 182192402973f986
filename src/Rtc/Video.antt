-- ===== src/Rtc/Video.antt =====
-- packages/rtc/src/video-encoding.ts: the limits of a video sender.
use risk_p2p.Prelude.{
  ℕ, ◌+◌, ◌*◌, ◌/◌, ◌≤◌, ◌<◌, ◌≡◌, min, max, Bool, Option, none, some, arith, if◌then◌else◌, leb,
  ◌==◌,
}

pub data VideoTrackSource : Type 0 where
  camera screen : VideoTrackSource

pub data DegradationPreference : Type 0 where
  balanced maintain_framerate maintain_resolution : DegradationPreference

pub data Priority : Type 0 where
  very_low low medium high : Priority

-- Numbers are taken as natural numbers: bit rates, frame rates and pixels.
pub record VideoPublicationOptions : Type 0 where
  pub source : VideoTrackSource
  pub max_bitrate : Option ℕ
  pub max_framerate : Option ℕ
  pub target_width : Option ℕ
  pub target_height : Option ℕ
  pub degradation_preference : Option DegradationPreference

pub record Capture : Type 0 where
  pub width : Option ℕ
  pub height : Option ℕ

-- `scale_resolution_down_by` is in hundredths, as the source rounds it.
pub record VideoSenderPolicy : Type 0 where
  pub max_bitrate : ℕ
  pub max_framerate : Option ℕ
  pub scale_resolution_down_by : Option ℕ
  pub degradation_preference : DegradationPreference
  pub priority : Priority

abbrev pub max_screen_mesh_bitrate : ℕ
max_screen_mesh_bitrate = 18000000

abbrev pub min_screen_bitrate_per_peer : ℕ
min_screen_bitrate_per_peer = 1800000

unfoldable pub clamp : ℕ → ℕ → ℕ → ℕ
clamp value minimum maximum = min maximum (max minimum value)

-- `options.maxFramerate ? clamp(…, 1, 60) : undefined`; 0 is no frame rate.
framerate : Option ℕ → Option ℕ
unfolding clamp
framerate none = none
framerate (some r) = if r == 0 then none else some (clamp r 1 60)

or_default {ℓ} : {A : Type ℓ} → Option A → A → A
or_default none a = a
or_default (some b) a = b

-- `Math.round(captured / target * 100)`, or 100 where one of the two is missing or 0. The double
-- quotient is taken as the exact one.
scale : Option ℕ → Option ℕ → ℕ
scale (some captured) (some target) =
    if captured == 0
    then 100
    else if target == 0
    then 100
    else (captured * 200 + target) / (2 * target)
scale _ _ = 100

resolution_scale : Capture → VideoPublicationOptions → ℕ
unfolding scale
resolution_scale capture options =
    max 100
      (max (scale capture.width options.target_width) (scale capture.height options.target_height))

screen_policy : VideoPublicationOptions → ℕ → Capture → VideoSenderPolicy
unfolding framerate or_default resolution_scale clamp
screen_policy options peers capture = record {
  max_bitrate =
      min (clamp (or_default options.max_bitrate 6000000) 750000 12000000)
        (max min_screen_bitrate_per_peer (max_screen_mesh_bitrate / peers));
  max_framerate = framerate options.max_framerate;
  scale_resolution_down_by = some (resolution_scale capture options);
  degradation_preference = or_default options.degradation_preference balanced;
  priority = high;
}

camera_policy : Option ℕ → ℕ → Bool → VideoSenderPolicy
unfolding framerate
camera_policy max_framerate peers screen_published =
    let adaptive = if leb peers 1 then 2500000 else if leb peers 3 then 1200000 else 700000 in
    record {
      max_bitrate = if screen_published then min adaptive 600000 else adaptive;
      max_framerate = framerate max_framerate;
      scale_resolution_down_by = none;
      degradation_preference = if screen_published then balanced else maintain_framerate;
      priority = if screen_published then low else medium;
    }

-- `activePeers` is a whole number in every call.
pub resolve_video_sender_policy :
    Option VideoPublicationOptions → ℕ → Capture → Bool → VideoSenderPolicy
unfolding screen_policy camera_policy
resolve_video_sender_policy none active_peers capture screen_published =
    camera_policy none (max 1 active_peers) screen_published
resolve_video_sender_policy (some options) active_peers capture screen_published =
    elim options.source [
      | screen ↦ screen_policy options (max 1 active_peers) capture
      | camera ↦ camera_policy options.max_framerate (max 1 active_peers) screen_published
    ]

share_le :
    (total floor peers : ℕ)
    → 0 < peers
    → peers * max floor (total / peers) ≤ max total (peers * floor)
share_le total floor peers pos = grind arith

share_min_le :
    (requested total floor peers : ℕ)
    → 0 < peers
    → peers * min requested (max floor (total / peers)) ≤ max total (peers * floor)
share_min_le requested total floor peers pos = grind (arith, share_le total floor peers pos)

share_antitone : (total fewer more : ℕ) → 0 < fewer → fewer ≤ more → total / more ≤ total / fewer
share_antitone total fewer more pos h = grind arith

-- What all peers together get stays within the aggregate limit for a screen, unless the floor of
-- 1.8 Mbit/s for each peer is reached; one peer gets between 750 kbit/s and 12 Mbit/s.
pub screen_bitrate_bounds :
    (options : VideoPublicationOptions) (peers : ℕ) (capture : Capture) (published : Bool)
    → options.source ≡ screen
    → 0 < peers
    → let policy = resolve_video_sender_policy (some options) peers capture published in
      (750000 ≤ policy.max_bitrate)
      × (policy.max_bitrate ≤ 12000000)
      × (peers * policy.max_bitrate
          ≤ max max_screen_mesh_bitrate (peers * min_screen_bitrate_per_peer))
unfolding resolve_video_sender_policy
screen_bitrate_bounds options peers capture published h pos = ground (
  arith,
  share_min_le (clamp (or_default options.max_bitrate 6000000) 750000 12000000)
      max_screen_mesh_bitrate min_screen_bitrate_per_peer peers pos,
)

-- More peers never raise what one of them is sent.
pub bitrate_antitone :
    (options : Option VideoPublicationOptions) (fewer more : ℕ) (capture : Capture)
    (published : Bool)
    → fewer ≤ more
    → (resolve_video_sender_policy options more capture published).max_bitrate
      ≤ (resolve_video_sender_policy options fewer capture published).max_bitrate
unfolding resolve_video_sender_policy
bitrate_antitone none fewer more capture published h = ground arith
bitrate_antitone (some options) fewer more capture published h =
    ground (arith, share_antitone max_screen_mesh_bitrate (max 1 fewer) (max 1 more))
