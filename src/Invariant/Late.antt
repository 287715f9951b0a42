-- ===== src/Invariant/Late.antt =====
-- A failure that is recorded late: `markFailedAndSchedule` of
-- src/dispatcher/infrastructure/persistence/prisma-dispatch-deliveries.repository.ts leaves the event of
-- the delivery as it is.
use webhook_engine.Prisma.{Prisma}
