-- ===== src/Web/Connection/Framed.antt =====
-- Whatever a request holds, it cannot break up the response to it.
use allgres.Web.Respond.Framed.{IsPlain}
use allgres.Web.World.{World}
use allgres.Web.Connection.{Reply, wrote, Outcome}

-- A response that is written is plain.
abbrev PlainReply : Reply → Type 0
PlainReply (wrote r) = IsPlain r
PlainReply _ = Unit

record Answers {K : Type 0} (o : Outcome K) : Type 0 where
  plain : PlainReply o.reply
