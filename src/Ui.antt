-- ===== src/Ui.antt =====
-- The React views: each component is a function from its props to a tree of elements. Class names,
-- styles and purely decorative attributes are left out. What a component keeps by `useState` is an
-- argument, and its handlers are messages.
pub mod Html
pub mod Decimal
pub mod Controls
pub mod QuestionForm
pub mod Status
pub mod Transcript
pub mod Verdict
pub mod Markdown
pub mod Overlay
pub mod Layouts
pub mod Debug
pub mod Parts
pub mod Offers
pub mod TranscriptOffers
pub mod StageOffers
pub mod Banner
pub mod Rounds
pub mod Choices
