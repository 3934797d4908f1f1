-- ===== src/Pipeline/Refusals.antt =====
-- What a refused command leaves behind: `runPipeline` and `processInboundCommand`
-- (buzz-hermes-bridge/src/pipeline.ts) over any repository whose reads keep a view of the store.
use assurance_toto.Prelude.{◌≢◌}
use assurance_toto.Exec.Returns.{Returns}
use assurance_toto.Rows.{denied}
use assurance_toto.Pipeline.Types.{PipelineResult}

abbrev IsNotDenied : PipelineResult → Type 0
IsNotDenied r = r.outcome ≢ denied
