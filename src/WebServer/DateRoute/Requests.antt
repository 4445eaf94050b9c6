-- ===== src/WebServer/DateRoute/Requests.antt =====
-- Requests for a day.
use Prim.Native.String.{String}
use iotic.Database.Environment.{Environment}
use iotic.Database.Store.{Store}
