-- ===== src/DataChannel/Tests.antt =====
-- Calls of ProduceData of src/Transport.cpp: with the default limits, and with a packet life time.
use libmediasoupclient.Prelude.{true, false, ◌≡◌}
use libmediasoupclient.Json.{pos}
use libmediasoupclient.DataChannel.{produce_data}
use libmediasoupclient.DataChannel.Limits.{succeeds, produce_data-succeeds}

produce_data-succeeds_example :
    succeeds (produce_data true 0 "chat" false (pos 0) (pos 500)) ≡ false
produce_data-succeeds_example = produce_data-succeeds true 0 "chat" false (pos 0) (pos 500)
