-- ===== src/Sessions/Device.antt =====
-- src/sessions/sessions.service.ts: what a session records of its device and its place. `includes` is
-- `String.prototype.includes`: `includes ua s` tells whether the text s occurs in ua.
use prop_chain_back_end.Base.{
  Bool, not, ◌&&◌, ◌||◌, Option, none, some, String, if◌then◌else◌, str_eq,
}

pub record DeviceInfo : Type 0 where
  pub browser : Option String
  pub os : Option String
  pub device_type : Option String

pub record Geo : Type 0 where
  pub country : String
  pub city : String
  pub region : String

module _ (includes : String → String → Bool) where
  abbrev pub extract_browser : String → Option String
  extract_browser ua =
      if includes ua "Firefox/"
      then some "Firefox"
      else if includes ua "Edg/"
      then some "Edge"
      else if includes ua "Chrome/"
      then some "Chrome"
      else if includes ua "Safari/" && not (includes ua "Chrome")
      then some "Safari"
      else if includes ua "Opera/" || includes ua "OPR/"
      then some "Opera"
      else if includes ua "MSIE" || includes ua "Trident/"
      then some "Internet Explorer"
      else none

  abbrev pub extract_os : String → Option String
  extract_os ua =
      if includes ua "Windows NT 10"
      then some "Windows 10+"
      else if includes ua "Windows NT 6.1"
      then some "Windows 7"
      else if includes ua "Windows"
      then some "Windows"
      else if includes ua "Mac OS X"
      then some "macOS"
      else if includes ua "Linux"
      then some "Linux"
      else if includes ua "Android"
      then some "Android"
      else if includes ua "iPhone" || includes ua "iPad"
      then some "iOS"
      else none

  abbrev pub extract_device_type : String → String
  extract_device_type ua =
      if includes ua "Mobile" || includes ua "Android"
      then "mobile"
      else if includes ua "iPad" || includes ua "Tablet"
      then "tablet"
      else "desktop"

  abbrev pub parse_device_info : Option String → DeviceInfo
  parse_device_info none = record { browser = none; os = none; device_type = none }
  parse_device_info (some ua) =
      if str_eq ua "" then record { browser = none; os = none; device_type = none } else record {
        browser = extract_browser ua;
        os = extract_os ua;
        device_type = some (extract_device_type ua);
      }

abbrev local_geo : Geo
local_geo = record { country = "Local"; city = "Localhost"; region = "Local" }

abbrev unknown_geo : Geo
unknown_geo = record { country = "Unknown"; city = "Unknown"; region = "Unknown" }

abbrev pub lookup_geo_from_ip : Option String → Option Geo
lookup_geo_from_ip none = none
lookup_geo_from_ip (some ip) =
    if str_eq ip ""
    then none
    else if str_eq ip "127.0.0.1" || str_eq ip "::1" || str_eq ip "::ffff:127.0.0.1"
    then some local_geo
    else some unknown_geo
