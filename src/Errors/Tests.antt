-- ===== src/Errors/Tests.antt =====
-- The theorems on errors at concrete errors.
use spiderw.Errors.Wrap.{network_unavailable_policy}
use spiderw.Errors.Laws.Replies.{MethodPublished, PropertyPublished, publish-failed}

publish-failed_example :
    MethodPublished network_unavailable_policy "Network.Connect" "Network.Connect"
      "failed connecting" "net.connman.iwd.Network" "Connect" "net.connman.iwd.NoAgent"
    × PropertyPublished network_unavailable_policy "Network.Connect" "Network.Connect"
        "failed connecting" "net.connman.iwd.Network" "Connect" "net.connman.iwd.NoAgent"
publish-failed_example =
    publish-failed network_unavailable_policy "Network.Connect" "Network.Connect"
      "failed connecting" "net.connman.iwd.Network" "Connect" "net.connman.iwd.NoAgent"
