-- ===== src/Ui/Banner.antt =====
-- What the banner says of an error that ended the session.
use council.Ui.Html.{Html}
