-- ===== src/Chord/Tests/Stabilizer.antt =====
-- A stabilizer that times out twice before its node exits.
use nreduce.Endpoint.{Endpoint}
