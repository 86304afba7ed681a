-- ===== src/Mavlink/Dispatcher/Tests.antt =====
-- The dispatcher at a concrete parser: each byte but 0 is a message.
use esp32cam.Base.{
  ℕ, ◌≡◌, ◌+◌, List, [], ◌∷◌, ◌++◌, ◌==◌, if◌then◌else◌, refl, arith, some, none, Option,
}
use esp32cam.Container.Slice.{Slice}
use esp32cam.Container.Circular.{initial}
use esp32cam.Mavlink.FtpClient.Handlers.{ignored, response}
use esp32cam.Mavlink.Dispatcher.{Dispatcher, Service, aggregate}
use esp32cam.Mavlink.Dispatcher.Drain.{drain, Drained, drain_lem}

abbrev frame : ℕ → ℕ → ℕ × Option ℕ
frame p b = (p + 1, if b == 0 then none else some b)

abbrev ignores : Service ℕ ℕ
ignores m s = record { ret = ignored; message = m; replies = []; state = s + 1 }

abbrev answers : Service ℕ ℕ
answers m s = record { ret = response; message = m; replies = m ∷ []; state = s + 10 }

abbrev respond : Unit {0} → List ℕ → List ℕ → List ℕ
respond c r v = v ++ r

abbrev dispatcher : Dispatcher ℕ ℕ ℕ
dispatcher = record { parser = 0; queue = initial 1; services = 0; resp = [] }

abbrev bytes : Slice
bytes = record { start = 0; bytes = 0 ∷ 5 ∷ 0 ∷ 6 ∷ [] }

drain_example :
    (w : Dispatcher ℕ ℕ ℕ × List ℕ) × ((drain frame
          (aggregate (ignores ∷ answers ∷ []))
          respond
          5
          bytes
          bytes
          tt
          (dispatcher, [])
        ≡ some w)
      × Drained frame
          (aggregate (ignores ∷ answers ∷ []))
          respond
          0
          (0 ∷ 5 ∷ 0 ∷ 6 ∷ [])
          tt
          (0, [])
          w)
drain_example =
    drain_lem frame (aggregate (ignores ∷ answers ∷ [])) respond 5 bytes bytes tt dispatcher []
      (omega arith, (refl, (omega arith, tt))) (omega arith) (omega arith)
