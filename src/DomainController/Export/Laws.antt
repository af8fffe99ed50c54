-- ===== src/DomainController/Export/Laws.antt =====
-- What the exported secret holds.
use mailgun_operator.Base.{String, Option}
use mailgun_operator.Base.Dict.{lookup}
use mailgun_operator.External.{Secret}
use mailgun_operator.DomainController.Export.{contents_of}

abbrev pub entry : Secret → String → Option String
entry secret k = lookup k (contents_of secret.contents)
